-- ===== src/Helper/Offer.antt =====
-- scripts/utils/script-helper.ts: the builders of instructions about offers.
pub mod Accounts
use on_re_sol.Base.{
  String, Bool, true, false, List, [], ◌∷◌, ◌++◌, Option, none, some, pos, not, ℕ, if◌then◌else◌,
}
use on_re_sol.Js.{PublicKey, key, Value, null, undefined, num, int, bool, pubkey, big, or_else}
use on_re_sol.Session.{
  Platform, Seed, text, key_bytes, u64_le, Instruction, call, create_token_account, M, pure,
  of_option, ◌>>=◌, RedemptionOffer,
}
use on_re_sol.Network.{NetworkConfig, Mints}
use on_re_sol.Tokens.{token_program_id}
use on_re_sol.Helper.Addresses.{
  new_bn, state_pda, offer_vault_authority_pda, permissionless_vault_authority_pda,
  mint_authority_pda, program_data_pda,
}

module _ (p : Platform) (cfg : NetworkConfig) where
  unfoldable pub build_make_offer_ix :
      Value → Value → Value → Value → Value → Value → Value → M Instruction
  build_make_offer_ix token_in_mint token_out_mint fee_basis_points needs_approval
        allow_permissionless token_in_program boss =
      do
        pure (
            call "makeOffer"
              ((or_else fee_basis_points (num (int (pos 0))))
                ∷ (or_else needs_approval (bool false))
                ∷ (or_else allow_permissionless (bool false))
                ∷ [])
              (("tokenInMint", token_in_mint)
                ∷ ("tokenInProgram", or_else token_in_program (pubkey token_program_id))
                ∷ ("tokenOutMint", token_out_mint)
                ∷ ("boss", boss)
                ∷ []))

  unfoldable pub build_add_offer_vector_ix :
      Value → Value → Value → Value → Value → Value → Value → M Instruction
  build_add_offer_vector_ix token_in_mint token_out_mint base_time base_price apr price_fix_duration
        boss =
      do
        base_time_bn ← new_bn p base_time
        base_price_bn ← new_bn p base_price
        apr_bn ← new_bn p apr
        price_fix_duration_bn ← new_bn p price_fix_duration
        pure (
            call "addOfferVector"
              (null ∷ base_time_bn ∷ base_price_bn ∷ apr_bn ∷ price_fix_duration_bn ∷ [])
              (("tokenInMint", token_in_mint)
                ∷ ("tokenOutMint", token_out_mint)
                ∷ ("boss", boss)
                ∷ []))

  unfoldable pub build_update_offer_fee_ix : Value → Value → Value → Value → M Instruction
  build_update_offer_fee_ix token_in_mint token_out_mint new_fee_basis_points boss = do
    pure (
        call "updateOfferFee" (new_fee_basis_points ∷ [])
          (("tokenInMint", token_in_mint) ∷ ("tokenOutMint", token_out_mint) ∷ ("boss", boss) ∷ []))

  unfoldable pub build_delete_offer_vector_ix : Value → Value → Value → Value → M Instruction
  build_delete_offer_vector_ix token_in_mint token_out_mint vector_start_timestamp boss = do
    vector_start_timestamp_bn ← new_bn p vector_start_timestamp
    pure (
        call "deleteOfferVector" (vector_start_timestamp_bn ∷ [])
          (("tokenInMint", token_in_mint) ∷ ("tokenOutMint", token_out_mint) ∷ ("boss", boss) ∷ []))

  unfoldable pub build_delete_all_offer_vectors_ix : Value → Value → Value → M Instruction
  build_delete_all_offer_vectors_ix token_in_mint token_out_mint boss = do
    pure (
        call "deleteAllOfferVectors" ([])
          (("tokenInMint", token_in_mint) ∷ ("tokenOutMint", token_out_mint) ∷ ("boss", boss) ∷ []))

  unfoldable pub build_take_offer_ix : Value → Value → Value → Value → Value → Value → M Instruction
  build_take_offer_ix token_in_amount token_in_mint token_out_mint user token_in_program
        token_out_program =
      do
        token_in_amount_bn ← new_bn p token_in_amount
        pure (
            call "takeOffer" (token_in_amount_bn ∷ null ∷ []) (
              ("tokenInMint", token_in_mint)
              ∷ ("tokenOutMint", token_out_mint)
              ∷ ("user", user)
              ∷ ("tokenInProgram", or_else token_in_program (pubkey token_program_id))
              ∷ ("tokenOutProgram", or_else token_out_program (pubkey token_program_id))
              ∷ []))

  unfoldable pub build_take_offer_permissionless_ix :
      Value → Value → Value → Value → Value → Value → M Instruction
  build_take_offer_permissionless_ix token_in_amount token_in_mint token_out_mint user
        token_in_program token_out_program =
      do
        token_in_amount_bn ← new_bn p token_in_amount
        pure (
            call "takeOfferPermissionless" (token_in_amount_bn ∷ null ∷ []) (
              ("tokenInMint", token_in_mint)
              ∷ ("tokenOutMint", token_out_mint)
              ∷ ("user", user)
              ∷ ("vaultAuthority", pubkey (offer_vault_authority_pda p cfg))
              ∷ ("permissionlessAuthority", pubkey (permissionless_vault_authority_pda p cfg))
              ∷ ("mintAuthority", pubkey (mint_authority_pda p cfg))
              ∷ ("tokenInProgram", or_else token_in_program (pubkey token_program_id))
              ∷ ("tokenOutProgram", or_else token_out_program (pubkey token_program_id))
              ∷ []))

  -- The instructions that create the token accounts of the permissionless authority which are not
  -- there yet, for the token in and then the token out.
  unfoldable pub missing_account : Value → Value → Value → PublicKey → M (List Instruction)
  missing_account payer token_mint token_program account = do
    there ← of_option "failed to get info about account" (p.account_exists account)
    pure (
        if there
        then []
        else create_token_account payer account (permissionless_vault_authority_pda p cfg)
            token_mint token_program
          ∷ [])

  unfoldable pub build_create_permissionless_token_accounts_ixs :
      Value → Value → Value → Value → Value → M (List Instruction)
  unfolding missing_account
  build_create_permissionless_token_accounts_ixs token_in_mint token_out_mint token_in_program
        token_out_program payer =
      do
        token_in_account ← of_option "TokenOwnerOffCurveError" (
            p.token_address token_in_mint (permissionless_vault_authority_pda p cfg)
              token_in_program)
        in_ixs ← missing_account payer token_in_mint token_in_program token_in_account
        token_out_account ← of_option "TokenOwnerOffCurveError" (
            p.token_address token_out_mint (permissionless_vault_authority_pda p cfg)
              token_out_program)
        out_ixs ← missing_account payer token_out_mint token_out_program token_out_account
        pure (in_ixs ++ out_ixs)
