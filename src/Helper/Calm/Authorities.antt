-- ===== src/Helper/Calm/Authorities.antt =====
-- scripts/utils/script-helper.ts: the instructions about vaults and authorities.
use on_re_sol.Js.{Value}
use on_re_sol.Session.{Platform, Keeps}
use on_re_sol.Session.Calm.{Quiet, of_pure, of_bind, of_option_lem}
use on_re_sol.Network.{NetworkConfig}
use on_re_sol.Helper.Vault.{
  build_offer_vault_deposit_ix, build_offer_vault_withdraw_ix, build_redemption_vault_deposit_ix,
  build_redemption_vault_withdraw_ix,
}
use on_re_sol.Helper.Authority.{
  build_set_redemption_admin_ix, build_clear_admins_ix, build_add_admin_ix, build_remove_admin_ix,
  build_propose_boss_ix, build_accept_boss_ix, build_set_kill_switch_ix, build_close_state_ix,
  build_configure_max_supply_ix, build_add_approver_ix, build_remove_approver_ix,
  build_set_onyc_mint_ix,
}

module _ (p : Platform) (cfg : NetworkConfig) where
  pub build_offer_vault_deposit_ix-Quiet :
      (amount token_mint token_program boss : Value)
      → Keeps Quiet (build_offer_vault_deposit_ix p cfg amount token_mint token_program boss)
  unfolding build_offer_vault_deposit_ix
  build_offer_vault_deposit_ix-Quiet amount token_mint token_program boss =
      of_bind (of_option_lem _ _) λ n1. of_pure

  pub build_offer_vault_withdraw_ix-Quiet :
      (amount token_mint token_program boss : Value)
      → Keeps Quiet (build_offer_vault_withdraw_ix p cfg amount token_mint token_program boss)
  unfolding build_offer_vault_withdraw_ix
  build_offer_vault_withdraw_ix-Quiet amount token_mint token_program boss =
      of_bind (of_option_lem _ _) λ n1. of_pure

  pub build_redemption_vault_deposit_ix-Quiet :
      (amount token_mint token_program boss : Value)
      → Keeps Quiet (build_redemption_vault_deposit_ix p cfg amount token_mint token_program boss)
  unfolding build_redemption_vault_deposit_ix
  build_redemption_vault_deposit_ix-Quiet amount token_mint token_program boss =
      of_bind (of_option_lem _ _) λ n1. of_pure

  pub build_redemption_vault_withdraw_ix-Quiet :
      (amount token_mint token_program boss : Value)
      → Keeps Quiet (build_redemption_vault_withdraw_ix p cfg amount token_mint token_program boss)
  unfolding build_redemption_vault_withdraw_ix
  build_redemption_vault_withdraw_ix-Quiet amount token_mint token_program boss =
      of_bind (of_option_lem _ _) λ n1. of_pure

  pub build_set_redemption_admin_ix-Quiet :
      (redemption_admin boss : Value)
      → Keeps Quiet (build_set_redemption_admin_ix p cfg redemption_admin boss)
  unfolding build_set_redemption_admin_ix
  build_set_redemption_admin_ix-Quiet redemption_admin boss = of_pure

  pub build_clear_admins_ix-Quiet : (boss : Value) → Keeps Quiet (build_clear_admins_ix p cfg boss)
  unfolding build_clear_admins_ix
  build_clear_admins_ix-Quiet boss = of_pure

  pub build_add_admin_ix-Quiet :
      (admin boss : Value) → Keeps Quiet (build_add_admin_ix p cfg admin boss)
  unfolding build_add_admin_ix
  build_add_admin_ix-Quiet admin boss = of_pure

  pub build_remove_admin_ix-Quiet :
      (admin boss : Value) → Keeps Quiet (build_remove_admin_ix p cfg admin boss)
  unfolding build_remove_admin_ix
  build_remove_admin_ix-Quiet admin boss = of_pure

  pub build_propose_boss_ix-Quiet :
      (new_boss boss : Value) → Keeps Quiet (build_propose_boss_ix p cfg new_boss boss)
  unfolding build_propose_boss_ix
  build_propose_boss_ix-Quiet new_boss boss = of_pure

  pub build_accept_boss_ix-Quiet :
      (new_boss : Value) → Keeps Quiet (build_accept_boss_ix p cfg new_boss)
  unfolding build_accept_boss_ix
  build_accept_boss_ix-Quiet new_boss = of_pure

  pub build_set_kill_switch_ix-Quiet :
      (enable boss : Value) → Keeps Quiet (build_set_kill_switch_ix p cfg enable boss)
  unfolding build_set_kill_switch_ix
  build_set_kill_switch_ix-Quiet enable boss = of_pure

  pub build_close_state_ix-Quiet : (boss : Value) → Keeps Quiet (build_close_state_ix p cfg boss)
  unfolding build_close_state_ix
  build_close_state_ix-Quiet boss = of_pure

  pub build_configure_max_supply_ix-Quiet :
      (max_supply boss : Value) → Keeps Quiet (build_configure_max_supply_ix p cfg max_supply boss)
  unfolding build_configure_max_supply_ix
  build_configure_max_supply_ix-Quiet max_supply boss = of_bind (of_option_lem _ _) λ n1. of_pure

  pub build_add_approver_ix-Quiet :
      (approver boss : Value) → Keeps Quiet (build_add_approver_ix p cfg approver boss)
  unfolding build_add_approver_ix
  build_add_approver_ix-Quiet approver boss = of_pure

  pub build_remove_approver_ix-Quiet :
      (approver boss : Value) → Keeps Quiet (build_remove_approver_ix p cfg approver boss)
  unfolding build_remove_approver_ix
  build_remove_approver_ix-Quiet approver boss = of_pure

  pub build_set_onyc_mint_ix-Quiet :
      (onyc_mint boss : Value) → Keeps Quiet (build_set_onyc_mint_ix p cfg onyc_mint boss)
  unfolding build_set_onyc_mint_ix
  build_set_onyc_mint_ix-Quiet onyc_mint boss = of_pure
