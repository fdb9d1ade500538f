-- ===== src/Helper/Vault.antt =====
-- scripts/utils/script-helper.ts: the builders of instructions about the vaults.
use on_re_sol.Base.{[], ◌∷◌}
use on_re_sol.Js.{Value, pubkey, or_else}
use on_re_sol.Session.{Platform, Instruction, call, M, pure, ◌>>=◌}
use on_re_sol.Network.{NetworkConfig}
use on_re_sol.Tokens.{token_program_id}
use on_re_sol.Helper.Addresses.{new_bn}

module _ (p : Platform) (cfg : NetworkConfig) where
  unfoldable pub build_offer_vault_deposit_ix : Value → Value → Value → Value → M Instruction
  build_offer_vault_deposit_ix amount token_mint token_program boss = do
    amount_bn ← new_bn p amount
    pure (
        call "offerVaultDeposit" (amount_bn ∷ []) (
          ("tokenMint", token_mint)
          ∷ ("tokenProgram", or_else token_program (pubkey token_program_id))
          ∷ ("boss", boss)
          ∷ []))

  unfoldable pub build_offer_vault_withdraw_ix : Value → Value → Value → Value → M Instruction
  build_offer_vault_withdraw_ix amount token_mint token_program boss = do
    amount_bn ← new_bn p amount
    pure (
        call "offerVaultWithdraw" (amount_bn ∷ []) (
          ("tokenMint", token_mint)
          ∷ ("tokenProgram", or_else token_program (pubkey token_program_id))
          ∷ ("boss", boss)
          ∷ []))

  unfoldable pub build_redemption_vault_deposit_ix : Value → Value → Value → Value → M Instruction
  build_redemption_vault_deposit_ix amount token_mint token_program boss = do
    amount_bn ← new_bn p amount
    pure (
        call "redemptionVaultDeposit" (amount_bn ∷ []) (
          ("tokenMint", token_mint)
          ∷ ("tokenProgram", or_else token_program (pubkey token_program_id))
          ∷ ("boss", boss)
          ∷ []))

  unfoldable pub build_redemption_vault_withdraw_ix : Value → Value → Value → Value → M Instruction
  build_redemption_vault_withdraw_ix amount token_mint token_program boss = do
    amount_bn ← new_bn p amount
    pure (
        call "redemptionVaultWithdraw" (amount_bn ∷ []) (
          ("tokenMint", token_mint)
          ∷ ("tokenProgram", or_else token_program (pubkey token_program_id))
          ∷ ("boss", boss)
          ∷ []))
