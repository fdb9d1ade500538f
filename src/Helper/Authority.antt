-- ===== src/Helper/Authority.antt =====
-- scripts/utils/script-helper.ts: the builders of instructions about the state and its authorities.
use on_re_sol.Base.{[], ◌∷◌}
use on_re_sol.Js.{Value, pubkey}
use on_re_sol.Session.{Platform, Instruction, call, M, pure, ◌>>=◌}
use on_re_sol.Network.{NetworkConfig}
use on_re_sol.Helper.Addresses.{new_bn, state_pda}

module _ (p : Platform) (cfg : NetworkConfig) where
  unfoldable pub build_set_redemption_admin_ix : Value → Value → M Instruction
  build_set_redemption_admin_ix redemption_admin boss = do
    pure (call "setRedemptionAdmin" (redemption_admin ∷ []) (("boss", boss) ∷ []))

  unfoldable pub build_clear_admins_ix : Value → M Instruction
  build_clear_admins_ix boss = do pure (call "clearAdmins" ([]) (("boss", boss) ∷ []))

  unfoldable pub build_add_admin_ix : Value → Value → M Instruction
  build_add_admin_ix admin boss = do pure (call "addAdmin" (admin ∷ []) (("boss", boss) ∷ []))

  unfoldable pub build_remove_admin_ix : Value → Value → M Instruction
  build_remove_admin_ix admin boss = do pure (call "removeAdmin" (admin ∷ []) (("boss", boss) ∷ []))

  unfoldable pub build_propose_boss_ix : Value → Value → M Instruction
  build_propose_boss_ix new_boss boss = do
    pure (call "proposeBoss" (new_boss ∷ []) (("boss", boss) ∷ []))

  unfoldable pub build_accept_boss_ix : Value → M Instruction
  build_accept_boss_ix new_boss = do pure (call "acceptBoss" ([]) (("newBoss", new_boss) ∷ []))

  unfoldable pub build_set_kill_switch_ix : Value → Value → M Instruction
  build_set_kill_switch_ix enable boss = do
    pure (call "setKillSwitch" (enable ∷ []) (("signer", boss) ∷ []))

  unfoldable pub build_close_state_ix : Value → M Instruction
  build_close_state_ix boss = do
    pure (call "closeState" ([]) (("boss", boss) ∷ ("state", pubkey (state_pda p cfg)) ∷ []))

  unfoldable pub build_configure_max_supply_ix : Value → Value → M Instruction
  build_configure_max_supply_ix max_supply boss = do
    max_supply_bn ← new_bn p max_supply
    pure (call "configureMaxSupply" (max_supply_bn ∷ []) (("boss", boss) ∷ []))

  unfoldable pub build_add_approver_ix : Value → Value → M Instruction
  build_add_approver_ix approver boss = do
    pure (call "addApprover" (approver ∷ []) (("boss", boss) ∷ []))

  unfoldable pub build_remove_approver_ix : Value → Value → M Instruction
  build_remove_approver_ix approver boss = do
    pure (call "removeApprover" (approver ∷ []) (("boss", boss) ∷ []))

  unfoldable pub build_set_onyc_mint_ix : Value → Value → M Instruction
  build_set_onyc_mint_ix onyc_mint boss = do
    pure (call "setOnycMint" ([]) (("boss", boss) ∷ ("onycMint", onyc_mint) ∷ []))
