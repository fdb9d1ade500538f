-- ===== src/Commands/Authority.antt =====
-- scripts/cli/implementations/state: the commands about the authorities of the state.
use on_re_sol.Base.{◌<>◌, [], ◌∷◌, some}
use on_re_sol.Js.{Object, get, undefined, pubkey}
use on_re_sol.Session.{Platform, M, pure, ◌>>=◌}
use on_re_sol.Network.{NetworkConfig}
use on_re_sol.Helper.Addresses.{get_boss}
use on_re_sol.Commands.Wrapper.{base58_of, execute_command, build_and_handle_transaction}
use on_re_sol.Params.Authority.{
  propose_boss_params, accept_boss_params, admin_params, approver_params, redemption_admin_params,
}
use on_re_sol.Helper.Authority.{
  build_set_redemption_admin_ix, build_add_admin_ix, build_remove_admin_ix, build_propose_boss_ix,
  build_accept_boss_ix, build_add_approver_ix, build_remove_approver_ix,
}

module _ (p : Platform) (cfg : NetworkConfig) (opts : Object) where
  unfoldable pub execute_state_propose_boss : M (Unit {0})
  execute_state_propose_boss = execute_command p cfg opts propose_boss_params λ params. do
    address ← base58_of (get params "newBoss")
    build_and_handle_transaction p cfg opts
        (record {
          title = "Propose Boss Transfer Transaction";
          description = some ("Proposes " <> (address <> " as new boss"));
          payer = undefined;
          param_summary = some ("Proposing new boss:", ("newBoss", get params "newBoss") ∷ []);
        })
        (do
          boss ← get_boss p cfg
          ix ← build_propose_boss_ix p cfg (get params "newBoss") (pubkey boss)
          pure (ix ∷ []))

  unfoldable pub execute_state_accept_boss : M (Unit {0})
  execute_state_accept_boss = execute_command p cfg opts accept_boss_params λ params. do
    build_and_handle_transaction p cfg opts
        (record {
          title = "Accept Boss Transfer Transaction";
          description = some ("Accepts boss transfer proposal");
          payer = get params "newBoss";
          param_summary = some ("Accepting boss transfer:", ("newBoss", get params "newBoss") ∷ []);
        })
        (do ix ← build_accept_boss_ix p cfg (get params "newBoss"); pure (ix ∷ []))

  unfoldable pub execute_state_add_admin : M (Unit {0})
  execute_state_add_admin = execute_command p cfg opts admin_params λ params. do
    address ← base58_of (get params "admin")
    build_and_handle_transaction p cfg opts
        (record {
          title = "Add Admin Transaction";
          description = some ("Adds " <> (address <> " as admin"));
          payer = undefined;
          param_summary = some ("Adding admin:", ("admin", get params "admin") ∷ []);
        })
        (do
          boss ← get_boss p cfg
          ix ← build_add_admin_ix p cfg (get params "admin") (pubkey boss)
          pure (ix ∷ []))

  unfoldable pub execute_state_remove_admin : M (Unit {0})
  execute_state_remove_admin = execute_command p cfg opts admin_params λ params. do
    address ← base58_of (get params "admin")
    build_and_handle_transaction p cfg opts
        (record {
          title = "Remove Admin Transaction";
          description = some ("Removes " <> (address <> " from admins"));
          payer = undefined;
          param_summary = some ("Removing admin:", ("admin", get params "admin") ∷ []);
        })
        (do
          boss ← get_boss p cfg
          ix ← build_remove_admin_ix p cfg (get params "admin") (pubkey boss)
          pure (ix ∷ []))

  unfoldable pub execute_state_add_approver : M (Unit {0})
  execute_state_add_approver = execute_command p cfg opts approver_params λ params. do
    address ← base58_of (get params "approver")
    build_and_handle_transaction p cfg opts
        (record {
          title = "Add Approver Transaction";
          description = some ("Adds " <> (address <> " as approver"));
          payer = undefined;
          param_summary = some ("Adding approver:", ("approver", get params "approver") ∷ []);
        })
        (do
          boss ← get_boss p cfg
          ix ← build_add_approver_ix p cfg (get params "approver") (pubkey boss)
          pure (ix ∷ []))

  unfoldable pub execute_state_remove_approver : M (Unit {0})
  execute_state_remove_approver = execute_command p cfg opts approver_params λ params. do
    address ← base58_of (get params "approver")
    build_and_handle_transaction p cfg opts
        (record {
          title = "Remove Approver Transaction";
          description = some ("Removes " <> (address <> " from approvers"));
          payer = undefined;
          param_summary = some ("Removing approver:", ("approver", get params "approver") ∷ []);
        })
        (do
          boss ← get_boss p cfg
          ix ← build_remove_approver_ix p cfg (get params "approver") (pubkey boss)
          pure (ix ∷ []))

  unfoldable pub execute_state_set_redemption_admin : M (Unit {0})
  execute_state_set_redemption_admin = execute_command p cfg opts redemption_admin_params λ params.
      do
        address ← base58_of (get params "redemptionAdmin")
        build_and_handle_transaction p cfg opts
            (record {
              title = "Set Redemption Admin Transaction";
              description = some ("Sets redemption admin to " <> address);
              payer = undefined;
              param_summary = some (
                "Setting redemption admin:",
                ("redemptionAdmin", get params "redemptionAdmin") ∷ [],
              );
            })
            (do
              boss ← get_boss p cfg
              ix ← build_set_redemption_admin_ix p cfg (get params "redemptionAdmin") (pubkey boss)
              pure (ix ∷ []))
