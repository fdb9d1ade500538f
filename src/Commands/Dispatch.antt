-- ===== src/Commands/Dispatch.antt =====
-- scripts/cli/commands and scripts/cli/index.ts: which function runs a subcommand. The subcommands that
-- fetch an offer or ask the market views are not modelled.
use on_re_sol.Base.{String, Option, none, some, ◌==◌, if◌then◌else◌}
use on_re_sol.Js.{Object}
use on_re_sol.Session.{Platform, M}
use on_re_sol.Network.{NetworkConfig}
use on_re_sol.Commands.Authority.{
  execute_state_propose_boss, execute_state_accept_boss, execute_state_add_admin,
  execute_state_remove_admin, execute_state_add_approver, execute_state_remove_approver,
  execute_state_set_redemption_admin,
}
use on_re_sol.Commands.State.{
  execute_state_get, execute_state_set_onyc_mint, execute_state_kill_switch,
  execute_state_max_supply, execute_state_clear_admins, execute_state_close,
}
use on_re_sol.Commands.Offer.{
  execute_offer_make, execute_offer_take, execute_offer_add_vector, execute_offer_delete_vector,
  execute_offer_update_fee, execute_offer_delete_all_vectors,
}
use on_re_sol.Commands.Vault.{
  execute_vault_deposit, execute_vault_withdraw, execute_vault_redemption_deposit,
  execute_vault_redemption_withdraw,
}
use on_re_sol.Commands.Setup.{
  execute_mint_to, execute_mint_authority_to_program, execute_mint_authority_to_boss,
  execute_init_program, execute_init_permissionless,
}
use on_re_sol.Commands.Redemption.{
  execute_redemption_make_offer, execute_redemption_fetch_offer, execute_redemption_update_fee,
  execute_redemption_create_request, execute_redemption_fetch_request, execute_redemption_fulfill,
  execute_redemption_cancel, execute_redemption_list_requests,
}

pub data Command : Type 0 where
  state_get state_propose_boss state_accept_boss state_add_admin state_remove_admin
        state_add_approver state_remove_approver state_set_onyc_mint state_kill_switch
        state_max_supply state_set_redemption_admin state_clear_admins state_close :
      Command
  offer_make offer_take offer_add_vector offer_delete_vector offer_update_fee
        offer_delete_all_vectors :
      Command
  vault_deposit vault_withdraw vault_redemption_deposit vault_redemption_withdraw : Command
  mint_to mint_authority_to_program mint_authority_to_boss : Command
  redemption_make_offer redemption_fetch_offer redemption_update_fee redemption_create_request
        redemption_fetch_request redemption_fulfill redemption_cancel redemption_list_requests :
      Command
  init_program init_permissionless : Command

-- The subcommands of each group.
unfoldable pub state_command : String → Option Command
state_command name =
    if name == "get"
    then some state_get
    else if name == "propose-boss"
    then some state_propose_boss
    else if name == "accept-boss"
    then some state_accept_boss
    else if name == "add-admin"
    then some state_add_admin
    else if name == "remove-admin"
    then some state_remove_admin
    else if name == "add-approver"
    then some state_add_approver
    else if name == "remove-approver"
    then some state_remove_approver
    else if name == "set-onyc-mint"
    then some state_set_onyc_mint
    else if name == "kill-switch"
    then some state_kill_switch
    else if name == "max-supply"
    then some state_max_supply
    else if name == "set-redemption-admin"
    then some state_set_redemption_admin
    else if name == "clear-admins"
    then some state_clear_admins
    else if name == "close"
    then some state_close
    else none

unfoldable pub offer_command : String → Option Command
offer_command name =
    if name == "make"
    then some offer_make
    else if name == "take"
    then some offer_take
    else if name == "add-vector"
    then some offer_add_vector
    else if name == "delete-vector"
    then some offer_delete_vector
    else if name == "update-fee"
    then some offer_update_fee
    else if name == "delete-all-vectors"
    then some offer_delete_all_vectors
    else none

unfoldable pub vault_command : String → Option Command
vault_command name =
    if name == "deposit"
    then some vault_deposit
    else if name == "withdraw"
    then some vault_withdraw
    else if name == "redemption-deposit"
    then some vault_redemption_deposit
    else if name == "redemption-withdraw"
    then some vault_redemption_withdraw
    else none

unfoldable pub mint_authority_command : String → Option Command
mint_authority_command name =
    if name == "mint-to"
    then some mint_to
    else if name == "to-program"
    then some mint_authority_to_program
    else if name == "to-boss"
    then some mint_authority_to_boss
    else none

unfoldable pub redemption_command : String → Option Command
redemption_command name =
    if name == "make-offer"
    then some redemption_make_offer
    else if name == "fetch-offer"
    then some redemption_fetch_offer
    else if name == "update-fee"
    then some redemption_update_fee
    else if name == "create-request"
    then some redemption_create_request
    else if name == "fetch-request"
    then some redemption_fetch_request
    else if name == "fulfill"
    then some redemption_fulfill
    else if name == "cancel"
    then some redemption_cancel
    else if name == "list-requests"
    then some redemption_list_requests
    else none

unfoldable pub init_command : String → Option Command
init_command name =
    if name == "program"
    then some init_program
    else if name == "permissionless"
    then some init_permissionless
    else none

-- The group and the subcommand of it.
unfoldable pub command_of : String → String → Option Command
command_of group name =
    if group == "state"
    then state_command name
    else if group == "offer"
    then offer_command name
    else if group == "vault"
    then vault_command name
    else if group == "mint-authority"
    then mint_authority_command name
    else if group == "redemption"
    then redemption_command name
    else if group == "init"
    then init_command name
    else none

-- The action of a subcommand, with its merged options.
unfoldable pub run : Platform → NetworkConfig → Object → Command → M (Unit {0})
run p cfg opts state_get = execute_state_get p cfg opts
run p cfg opts state_propose_boss = execute_state_propose_boss p cfg opts
run p cfg opts state_accept_boss = execute_state_accept_boss p cfg opts
run p cfg opts state_add_admin = execute_state_add_admin p cfg opts
run p cfg opts state_remove_admin = execute_state_remove_admin p cfg opts
run p cfg opts state_add_approver = execute_state_add_approver p cfg opts
run p cfg opts state_remove_approver = execute_state_remove_approver p cfg opts
run p cfg opts state_set_onyc_mint = execute_state_set_onyc_mint p cfg opts
run p cfg opts state_kill_switch = execute_state_kill_switch p cfg opts
run p cfg opts state_max_supply = execute_state_max_supply p cfg opts
run p cfg opts state_set_redemption_admin = execute_state_set_redemption_admin p cfg opts
run p cfg opts state_clear_admins = execute_state_clear_admins p cfg opts
run p cfg opts state_close = execute_state_close p cfg opts
run p cfg opts offer_make = execute_offer_make p cfg opts
run p cfg opts offer_take = execute_offer_take p cfg opts
run p cfg opts offer_add_vector = execute_offer_add_vector p cfg opts
run p cfg opts offer_delete_vector = execute_offer_delete_vector p cfg opts
run p cfg opts offer_update_fee = execute_offer_update_fee p cfg opts
run p cfg opts offer_delete_all_vectors = execute_offer_delete_all_vectors p cfg opts
run p cfg opts vault_deposit = execute_vault_deposit p cfg opts
run p cfg opts vault_withdraw = execute_vault_withdraw p cfg opts
run p cfg opts vault_redemption_deposit = execute_vault_redemption_deposit p cfg opts
run p cfg opts vault_redemption_withdraw = execute_vault_redemption_withdraw p cfg opts
run p cfg opts mint_to = execute_mint_to p cfg opts
run p cfg opts mint_authority_to_program = execute_mint_authority_to_program p cfg opts
run p cfg opts mint_authority_to_boss = execute_mint_authority_to_boss p cfg opts
run p cfg opts redemption_make_offer = execute_redemption_make_offer p cfg opts
run p cfg opts redemption_fetch_offer = execute_redemption_fetch_offer p cfg opts
run p cfg opts redemption_update_fee = execute_redemption_update_fee p cfg opts
run p cfg opts redemption_create_request = execute_redemption_create_request p cfg opts
run p cfg opts redemption_fetch_request = execute_redemption_fetch_request p cfg opts
run p cfg opts redemption_fulfill = execute_redemption_fulfill p cfg opts
run p cfg opts redemption_cancel = execute_redemption_cancel p cfg opts
run p cfg opts redemption_list_requests = execute_redemption_list_requests p cfg opts
run p cfg opts init_program = execute_init_program p cfg opts
run p cfg opts init_permissionless = execute_init_permissionless p cfg opts
