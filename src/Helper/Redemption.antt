-- ===== src/Helper/Redemption.antt =====
-- scripts/utils/script-helper.ts: the builders of instructions about redemptions.
use on_re_sol.Base.{[], ◌∷◌}
use on_re_sol.Js.{Value, pubkey, or_else}
use on_re_sol.Session.{Platform, Instruction, call, M, pure, of_option, ◌>>=◌}
use on_re_sol.Network.{NetworkConfig}
use on_re_sol.Tokens.{token_program_id}
use on_re_sol.Helper.Addresses.{new_bn, redemption_vault_authority_pda}

module _ (p : Platform) (cfg : NetworkConfig) where
  unfoldable pub build_make_redemption_offer_ix :
      Value → Value → Value → Value → Value → Value → M Instruction
  build_make_redemption_offer_ix token_in_mint token_in_program token_out_mint token_out_program
        fee_basis_points boss =
      do
        pure (
            call "makeRedemptionOffer" (fee_basis_points ∷ []) (
              ("tokenInMint", token_in_mint)
              ∷ ("tokenInProgram", token_in_program)
              ∷ ("tokenOutMint", token_out_mint)
              ∷ ("tokenOutProgram", token_out_program)
              ∷ ("signer", boss)
              ∷ []))

  unfoldable pub build_fulfill_redemption_request_ix : Value → Value → Value → M Instruction
  build_fulfill_redemption_request_ix redemption_offer_pda redemption_request_pda redemption_admin =
      do
        pure (
            call "fulfillRedemptionRequest" ([]) (
              ("redemptionOffer", redemption_offer_pda)
              ∷ ("redemptionRequest", redemption_request_pda)
              ∷ ("redemptionAdmin", redemption_admin)
              ∷ []))

  unfoldable pub build_cancel_redemption_request_ix : Value → Value → Value → M Instruction
  build_cancel_redemption_request_ix redemption_offer_pda redemption_request_pda signer = do
    pure (
        call "cancelRedemptionRequest" ([]) (
          ("redemptionOffer", redemption_offer_pda)
          ∷ ("redemptionRequest", redemption_request_pda)
          ∷ ("signer", signer)
          ∷ []))

  unfoldable pub build_update_redemption_offer_fee_ix : Value → Value → Value → M Instruction
  build_update_redemption_offer_fee_ix redemption_offer_pda new_fee_basis_points boss = do
    pure (
        call "updateRedemptionOfferFee" (new_fee_basis_points ∷ [])
          (("redemptionOffer", redemption_offer_pda) ∷ ("boss", boss) ∷ []))

  -- The counter of the fetched offer and the token accounts are derived, and handed to nobody; what
  -- remains of them is that their derivation may throw.
  unfoldable pub build_create_redemption_request_ix :
      Value → Value → Value → Value → Value → M Instruction
  build_create_redemption_request_ix redemption_offer_pda token_in_mint amount redeemer
        token_program =
      do
        _ ←
            of_option "Account does not exist or has no data"
              (p.fetch_redemption_offer redemption_offer_pda)
        _ ← of_option "TokenOwnerOffCurveError" (
            p.redeemer_token_address token_in_mint redeemer
              (or_else token_program (pubkey token_program_id)))
        _ ← of_option "TokenOwnerOffCurveError" (
            p.token_address token_in_mint (redemption_vault_authority_pda p cfg)
              (or_else token_program (pubkey token_program_id)))
        amount_bn ← new_bn p amount
        pure (
            call "createRedemptionRequest" (amount_bn ∷ []) (
              ("redemptionOffer", redemption_offer_pda)
              ∷ ("tokenInMint", token_in_mint)
              ∷ ("redeemer", redeemer)
              ∷ ("tokenProgram", or_else token_program (pubkey token_program_id))
              ∷ []))
