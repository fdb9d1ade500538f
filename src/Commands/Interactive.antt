-- ===== src/Commands/Interactive.antt =====
-- scripts/cli/index.ts and scripts/cli/helpers: the option in which commander stores --no-interactive.
use mathlib.Core.Path.{fun_ext}
use on_re_sol.Base.{
  Bool, true, not, all, String, false, List, [], ◌∷◌, ◌==◌, insert, lookup-insert, ◌≡◌, refl, arith,
}
use on_re_sol.Js.{Value, Object, get}
use on_re_sol.Session.{Platform}
use on_re_sol.Network.{NetworkConfig}
use on_re_sol.Prompts.Types.{ParamDefinition}
use on_re_sol.Prompts.All.{prompt_from, prompt_for_params}
use on_re_sol.Commands.Wrapper.{
  is_json, is_dry_run, is_no_interactive, payer_of, command_body, execute_command,
  build_and_handle_transaction,
}
use on_re_sol.Params.Authority.{
  accept_boss_params, admin_params, approver_params, max_supply_params, propose_boss_params,
  redemption_admin_params, set_onyc_mint_params,
}
use on_re_sol.Params.Offer.{
  add_vector_params, delete_vector_params, make_offer_params, take_offer_params, update_fee_params,
}
use on_re_sol.Params.Redemption.{
  create_request_params, list_requests_params, redemption_offer_params, request_params,
  update_redemption_fee_params,
}
use on_re_sol.Params.Setup.{
  init_permissionless_params, init_program_params, mint_params, transfer_mint_authority_params,
}
use on_re_sol.Params.Common.{token_pair_params, vault_params}
use on_re_sol.Commands.State.{
  execute_state_get, execute_state_set_onyc_mint, execute_state_kill_switch,
  execute_state_max_supply, execute_state_clear_admins, execute_state_close,
}
use on_re_sol.Commands.Authority.{
  execute_state_propose_boss, execute_state_accept_boss, execute_state_add_admin,
  execute_state_remove_admin, execute_state_add_approver, execute_state_remove_approver,
  execute_state_set_redemption_admin,
}
use on_re_sol.Commands.Offer.{
  execute_offer_make, execute_offer_take, execute_offer_add_vector, execute_offer_delete_vector,
  execute_offer_update_fee, execute_offer_delete_all_vectors,
}
use on_re_sol.Commands.Vault.{
  execute_vault_deposit, execute_vault_withdraw, execute_vault_redemption_deposit,
  execute_vault_redemption_withdraw,
}
use on_re_sol.Commands.Setup.{
  execute_mint_to, execute_mint_authority_to_program, execute_mint_authority_to_boss,
  execute_init_program, execute_init_permissionless,
}
use on_re_sol.Commands.Redemption.{
  request_filters, list_requests, execute_redemption_make_offer, execute_redemption_fetch_offer,
  execute_redemption_update_fee, execute_redemption_create_request,
  execute_redemption_fetch_request, execute_redemption_fulfill, execute_redemption_cancel,
  execute_redemption_list_requests,
}
use on_re_sol.Commands.Dispatch.{
  Command, state_get, state_propose_boss, state_accept_boss, state_add_admin, state_remove_admin,
  state_add_approver, state_remove_approver, state_set_onyc_mint, state_kill_switch,
  state_max_supply, state_set_redemption_admin, state_clear_admins, state_close, offer_make,
  offer_take, offer_add_vector, offer_delete_vector, offer_update_fee, offer_delete_all_vectors,
  vault_deposit, vault_withdraw, vault_redemption_deposit, vault_redemption_withdraw, mint_to,
  mint_authority_to_program, mint_authority_to_boss, redemption_make_offer, redemption_fetch_offer,
  redemption_update_fee, redemption_create_request, redemption_fetch_request, redemption_fulfill,
  redemption_cancel, redemption_list_requests, init_program, init_permissionless, run,
}

-- No parameter has the name of the option.
abbrev is_apart : List ParamDefinition → Bool
is_apart = all (λ param. not ("interactive" == param.name))

module _ (p : Platform) (cfg : NetworkConfig) (opts : Object) (v : Value) where
  abbrev with_option : Object
  with_option = insert "interactive" v opts

  get-with_option :
      (name : String) → ("interactive" == name) ≡ false → get with_option name ≡ get opts name
  unfolding get
  get-with_option name apart = rw (get, lookup-insert opts "interactive" name v, apart) refl

  is_json-same : is_json with_option ≡ is_json opts
  is_json-same = rw (get-with_option "json" refl) refl

  is_dry_run-same : is_dry_run with_option ≡ is_dry_run opts
  is_dry_run-same = rw (get-with_option "dryRun" refl) refl

  no_interactive-same : is_no_interactive with_option ≡ is_no_interactive opts
  no_interactive-same = rw (get-with_option "noInteractive" refl) refl

  built-same :
      build_and_handle_transaction p cfg with_option ≡ build_and_handle_transaction p cfg opts
  unfolding build_and_handle_transaction payer_of
  built-same = fun_ext λ options. fun_ext λ build_ix. rw (is_json-same, is_dry_run-same) refl

  prompt_from-same :
      (params : List ParamDefinition) (result : Object)
      → is_apart params ≡ true
      → prompt_from p cfg (is_no_interactive opts) params with_option result
        ≡ prompt_from p cfg (is_no_interactive opts) params opts result
  unfolding prompt_from
  prompt_from-same [] result apart = refl
  prompt_from-same (param ∷ params) result apart =
      rw
        (
          get-with_option param.name (ground (arith, apart)),
          fun_ext (λ (x : Value).
              prompt_from-same params (insert param.name x result) (ground (arith, apart))),
        )
        refl

  executed-same :
      (params : List ParamDefinition)
      → is_apart params ≡ true
      → execute_command p cfg with_option params ≡ execute_command p cfg opts params
  unfolding execute_command command_body prompt_for_params
  executed-same params apart =
      fun_ext
        λ handler. rw (is_json-same, no_interactive-same, prompt_from-same params [] apart) refl

  list_requests-same : list_requests p cfg with_option ≡ list_requests p cfg opts
  unfolding list_requests request_filters
  list_requests-same = refl

  -- The option `interactive`, in which commander stores --no-interactive, has no effect: with any value
  -- of it, every subcommand is the same step.
  pub run-interactive : (c : Command) → run p cfg with_option c ≡ run p cfg opts c
  unfolding run execute_state_get execute_state_propose_boss execute_state_accept_boss
      execute_state_add_admin execute_state_remove_admin execute_state_add_approver
      execute_state_remove_approver execute_state_set_onyc_mint execute_state_kill_switch
      execute_state_max_supply execute_state_set_redemption_admin execute_state_clear_admins
      execute_state_close execute_offer_make execute_offer_take execute_offer_add_vector
      execute_offer_delete_vector execute_offer_update_fee execute_offer_delete_all_vectors
      execute_vault_deposit execute_vault_withdraw execute_vault_redemption_deposit
      execute_vault_redemption_withdraw execute_mint_to execute_mint_authority_to_program
      execute_mint_authority_to_boss execute_redemption_make_offer execute_redemption_fetch_offer
      execute_redemption_update_fee execute_redemption_create_request
      execute_redemption_fetch_request execute_redemption_fulfill execute_redemption_cancel
      execute_redemption_list_requests execute_init_program execute_init_permissionless
  run-interactive state_get = rw (executed-same [] refl) refl
  run-interactive state_propose_boss = rw (built-same, executed-same propose_boss_params refl) refl
  run-interactive state_accept_boss = rw (built-same, executed-same accept_boss_params refl) refl
  run-interactive state_add_admin = rw (built-same, executed-same admin_params refl) refl
  run-interactive state_remove_admin = rw (built-same, executed-same admin_params refl) refl
  run-interactive state_add_approver = rw (built-same, executed-same approver_params refl) refl
  run-interactive state_remove_approver = rw (built-same, executed-same approver_params refl) refl
  run-interactive state_set_onyc_mint =
      rw (built-same, executed-same set_onyc_mint_params refl) refl
  run-interactive state_kill_switch =
      rw (is_dry_run-same, is_json-same, built-same, executed-same [] refl) refl
  run-interactive state_max_supply = rw (built-same, executed-same max_supply_params refl) refl
  run-interactive state_set_redemption_admin =
      rw (built-same, executed-same redemption_admin_params refl) refl
  run-interactive state_clear_admins =
      rw (is_dry_run-same, is_json-same, built-same, executed-same [] refl) refl
  run-interactive state_close =
      rw (is_dry_run-same, is_json-same, built-same, executed-same [] refl) refl
  run-interactive offer_make =
      rw (is_json-same, built-same, executed-same make_offer_params refl) refl
  run-interactive offer_take = rw (built-same, executed-same take_offer_params refl) refl
  run-interactive offer_add_vector = rw (built-same, executed-same add_vector_params refl) refl
  run-interactive offer_delete_vector =
      rw (built-same, executed-same delete_vector_params refl) refl
  run-interactive offer_update_fee = rw (built-same, executed-same update_fee_params refl) refl
  run-interactive offer_delete_all_vectors =
      rw (built-same, executed-same token_pair_params refl) refl
  run-interactive vault_deposit = rw (built-same, executed-same vault_params refl) refl
  run-interactive vault_withdraw = rw (built-same, executed-same vault_params refl) refl
  run-interactive vault_redemption_deposit = rw (built-same, executed-same vault_params refl) refl
  run-interactive vault_redemption_withdraw = rw (built-same, executed-same vault_params refl) refl
  run-interactive mint_to = rw (built-same, executed-same mint_params refl) refl
  run-interactive mint_authority_to_program =
      rw
        (
          is_dry_run-same,
          is_json-same,
          built-same,
          executed-same transfer_mint_authority_params refl,
        )
        refl
  run-interactive mint_authority_to_boss = rw (built-same, executed-same mint_params refl) refl
  run-interactive redemption_make_offer =
      rw (built-same, executed-same redemption_offer_params refl) refl
  run-interactive redemption_fetch_offer = rw (executed-same token_pair_params refl) refl
  run-interactive redemption_update_fee =
      rw (built-same, executed-same update_redemption_fee_params refl) refl
  run-interactive redemption_create_request =
      rw (built-same, executed-same create_request_params refl) refl
  run-interactive redemption_fetch_request = rw (executed-same request_params refl) refl
  run-interactive redemption_fulfill = rw (built-same, executed-same request_params refl) refl
  run-interactive redemption_cancel = rw (built-same, executed-same request_params refl) refl
  run-interactive redemption_list_requests =
      rw (list_requests-same, executed-same list_requests_params refl) refl
  run-interactive init_program =
      rw (is_dry_run-same, is_json-same, built-same, executed-same init_program_params refl) refl
  run-interactive init_permissionless =
      rw (built-same, executed-same init_permissionless_params refl) refl
