-- ===== src/Commands/Vault.antt =====
-- scripts/cli/implementations/vault: the commands about the vaults.
use on_re_sol.Base.{◌^◌, ◌<>◌, [], ◌∷◌, none, some}
use on_re_sol.Js.{Object, get, undefined, str, pubkey}
use on_re_sol.Session.{Platform, M, pure, lift, ◌>>=◌}
use on_re_sol.Network.{NetworkConfig}
use on_re_sol.Tokens.{get_token_decimals, get_token_program_id}
use on_re_sol.Helper.Addresses.{get_boss}
use on_re_sol.Commands.Wrapper.{execute_command, build_and_handle_transaction}
use on_re_sol.Params.Common.{vault_params}
use on_re_sol.Helper.Vault.{
  build_offer_vault_deposit_ix, build_offer_vault_withdraw_ix, build_redemption_vault_deposit_ix,
  build_redemption_vault_withdraw_ix,
}

module _ (p : Platform) (cfg : NetworkConfig) (opts : Object) where
  unfoldable pub execute_vault_deposit : M (Unit {0})
  execute_vault_deposit = execute_command p cfg opts vault_params λ params. do
    decimals ← lift (get_token_decimals cfg (get params "tokenMint"))
    build_and_handle_transaction p cfg opts
        (record {
          title = "Vault Deposit Transaction";
          description = none;
          payer = undefined;
          param_summary = some (
            "Depositing to vault:",
            ("tokenMint", get params "tokenMint")
                ∷ ("amount", get params "amount")
                ∷ (
                  "displayAmount",
                  str (p.ratio_locale_text (get params "amount") (10 ^ decimals) <> " tokens"),
                )
                ∷ [],
          );
        })
        (do
          boss ← get_boss p cfg
          token_program ← lift (get_token_program_id cfg (get params "tokenMint"))
          ix ←
              build_offer_vault_deposit_ix p cfg (get params "amount") (get params "tokenMint")
                (pubkey token_program) (pubkey boss)
          pure (ix ∷ []))

  unfoldable pub execute_vault_withdraw : M (Unit {0})
  execute_vault_withdraw = execute_command p cfg opts vault_params λ params. do
    decimals ← lift (get_token_decimals cfg (get params "tokenMint"))
    build_and_handle_transaction p cfg opts
        (record {
          title = "Vault Withdraw Transaction";
          description = none;
          payer = undefined;
          param_summary = some (
            "Withdrawing from vault:",
            ("tokenMint", get params "tokenMint")
                ∷ ("amount", get params "amount")
                ∷ (
                  "displayAmount",
                  str (p.ratio_locale_text (get params "amount") (10 ^ decimals) <> " tokens"),
                )
                ∷ [],
          );
        })
        (do
          boss ← get_boss p cfg
          token_program ← lift (get_token_program_id cfg (get params "tokenMint"))
          ix ←
              build_offer_vault_withdraw_ix p cfg (get params "amount") (get params "tokenMint")
                (pubkey token_program) (pubkey boss)
          pure (ix ∷ []))

  unfoldable pub execute_vault_redemption_deposit : M (Unit {0})
  execute_vault_redemption_deposit = execute_command p cfg opts vault_params λ params. do
    decimals ← lift (get_token_decimals cfg (get params "tokenMint"))
    build_and_handle_transaction p cfg opts
        (record {
          title = "Redemption Vault Deposit Transaction";
          description = none;
          payer = undefined;
          param_summary = some (
            "Depositing to redemption vault:",
            ("tokenMint", get params "tokenMint")
                ∷ ("amount", get params "amount")
                ∷ (
                  "displayAmount",
                  str (p.ratio_locale_text (get params "amount") (10 ^ decimals) <> " tokens"),
                )
                ∷ [],
          );
        })
        (do
          boss ← get_boss p cfg
          token_program ← lift (get_token_program_id cfg (get params "tokenMint"))
          ix ←
              build_redemption_vault_deposit_ix p cfg (get params "amount") (get params "tokenMint")
                (pubkey token_program) (pubkey boss)
          pure (ix ∷ []))

  unfoldable pub execute_vault_redemption_withdraw : M (Unit {0})
  execute_vault_redemption_withdraw = execute_command p cfg opts vault_params λ params. do
    decimals ← lift (get_token_decimals cfg (get params "tokenMint"))
    build_and_handle_transaction p cfg opts
        (record {
          title = "Redemption Vault Withdraw Transaction";
          description = none;
          payer = undefined;
          param_summary = some (
            "Withdrawing from redemption vault:",
            ("tokenMint", get params "tokenMint")
                ∷ ("amount", get params "amount")
                ∷ (
                  "displayAmount",
                  str (p.ratio_locale_text (get params "amount") (10 ^ decimals) <> " tokens"),
                )
                ∷ [],
          );
        })
        (do
          boss ← get_boss p cfg
          token_program ← lift (get_token_program_id cfg (get params "tokenMint"))
          ix ←
              build_redemption_vault_withdraw_ix p cfg (get params "amount")
                (get params "tokenMint") (pubkey token_program) (pubkey boss)
          pure (ix ∷ []))
