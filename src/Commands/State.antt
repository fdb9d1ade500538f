-- ===== src/Commands/State.antt =====
-- scripts/cli/implementations/state: the commands about the state account as a whole.
use on_re_sol.Base.{
  suc, leb, ℕ, String, ◌<>◌, true, not, ◌&&◌, List, [], ◌∷◌, none, some, pos, if◌then◌else◌,
}
use on_re_sol.Js.{PublicKey, equals, Object, get, undefined, bool, num, int, str, pubkey}
use on_re_sol.Session.{Platform, line, state_details, M, pure, show, ◌>>=◌, ◌>>◌}
use on_re_sol.Network.{NetworkConfig}
use on_re_sol.Helper.Addresses.{get_state, get_boss}
use on_re_sol.Commands.Wrapper.{
  is_json, is_dry_run, base58_of, execute_command, build_and_handle_transaction,
  confirm_dangerous_operation,
}
use on_re_sol.Params.Authority.{set_onyc_mint_params, max_supply_params}
use on_re_sol.Helper.Authority.{
  build_clear_admins_ix, build_set_kill_switch_ix, build_close_state_ix,
  build_configure_max_supply_ix, build_set_onyc_mint_ix,
}

abbrev pub close_phrase : String
close_phrase = "CLOSE STATE"

abbrev pub kill_phrase : String
kill_phrase = "ENABLE KILL SWITCH"

-- How many admins of the account are not the wallet.
unfoldable pub admin_count : PublicKey → List PublicKey → ℕ
admin_count wallet [] = 0
admin_count wallet (a ∷ admins) =
    let rest = admin_count wallet admins in if equals a wallet then rest else suc rest

module _ (p : Platform) (cfg : NetworkConfig) (opts : Object) where
  unfoldable pub execute_state_get : M (Unit {0})
  execute_state_get =
      execute_command p cfg opts [] λ params. do state ← get_state p cfg; show (state_details state)

  unfoldable pub execute_state_max_supply : M (Unit {0})
  execute_state_max_supply = execute_command p cfg opts max_supply_params λ params. do
    build_and_handle_transaction p cfg opts
        (record {
          title = "Set Max Supply Transaction";
          description = some ("Sets maximum supply to " <> p.text_of (get params "amount"));
          payer = undefined;
          param_summary = some (
            "Setting max supply:",
            ("amount", get params "amount")
                ∷ (
                  "displayAmount",
                  str (p.ratio_locale_text (get params "amount") 1_000_000_000 <> " ONyc"),
                )
                ∷ [],
          );
        })
        (do
          boss ← get_boss p cfg
          ix ← build_configure_max_supply_ix p cfg (get params "amount") (pubkey boss)
          pure (ix ∷ []))

  unfoldable pub execute_state_set_onyc_mint : M (Unit {0})
  execute_state_set_onyc_mint = execute_command p cfg opts set_onyc_mint_params λ params. do
    address ← base58_of (get params "mint")
    build_and_handle_transaction p cfg opts
        (record {
          title = "Set ONyc Mint Transaction";
          description = some ("Sets ONyc mint to " <> address);
          payer = undefined;
          param_summary = some ("Setting ONyc mint:", ("mint", get params "mint") ∷ []);
        })
        (do
          boss ← get_boss p cfg
          ix ← build_set_onyc_mint_ix p cfg (get params "mint") (pubkey boss)
          pure (ix ∷ []))

  unfoldable pub execute_state_clear_admins : M (Unit {0})
  execute_state_clear_admins = execute_command p cfg opts [] λ params. do
    state ← get_state p cfg
    let n = admin_count p.wallet state.admins
    let count = p.text_of (num (int (pos n)))
    if leb n 0 && not (is_json opts) then show (line "No admins to clear.") else (do
      confirmed ←
          (if not (is_json opts) && not (is_dry_run opts)
            then (do
              show (line ("\nThis will remove all " <> (count <> " admin(s).")))
              confirm_dangerous_operation p ("Remove all " <> (count <> " admin(s)?")) none)
            else pure true)
      if confirmed
          then (do
            build_and_handle_transaction p cfg opts
                (record {
                  title = "Clear Admins Transaction";
                  description = some ("Removes all " <> (count <> " admin(s)"));
                  payer = undefined;
                  param_summary = none;
                })
                (do
                  boss ← get_boss p cfg
                  ix ← build_clear_admins_ix p cfg (pubkey boss)
                  pure (ix ∷ [])))
          else show (line "\nOperation cancelled."))

  unfoldable pub execute_state_kill_switch : M (Unit {0})
  execute_state_kill_switch = execute_command p cfg opts [] λ params. do
    confirmed ←
        (if not (is_json opts) && not (is_dry_run opts)
          then (do
            show (line "\n⚠\u{fe0f}  WARNING: This will enable the kill switch!")
            show (line "This is an emergency action that pauses all program operations.")
            show (line "")
            confirm_dangerous_operation p "Are you sure you want to enable the kill switch?"
                (some kill_phrase))
          else pure true)
    if confirmed
        then (do
          build_and_handle_transaction p cfg opts
              (record {
                title = "Enable Kill Switch Transaction";
                description =
                    some ("⚠\u{fe0f}  EMERGENCY: Enables kill switch to pause all operations");
                payer = undefined;
                param_summary = none;
              })
              (do
                admin ← get_boss p cfg
                ix ← build_set_kill_switch_ix p cfg (bool true) (pubkey admin)
                pure (ix ∷ [])))
        else show (line "\nOperation cancelled.")

  unfoldable pub execute_state_close : M (Unit {0})
  execute_state_close = execute_command p cfg opts [] λ params. do
    confirmed ←
        (if not (is_json opts) && not (is_dry_run opts)
          then (do
            show (line "\n⚠\u{fe0f}  DANGER: This will close the program state account!")
            show (line "This action is irreversible and will disable the entire program.")
            show (line "")
            confirm_dangerous_operation p "Type 'CLOSE STATE' to confirm:" (some close_phrase))
          else pure true)
    if confirmed
        then (do
          build_and_handle_transaction p cfg opts
              (record {
                title = "Close State Transaction";
                description = some ("⚠\u{fe0f}  DANGER: Closes the program state account");
                payer = undefined;
                param_summary = none;
              })
              (do
                boss ← get_boss p cfg
                ix ← build_close_state_ix p cfg (pubkey boss)
                pure (ix ∷ [])))
        else show (line "\nOperation cancelled.")
