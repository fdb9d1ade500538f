-- ===== src/Helper/Calm/Redemptions.antt =====
-- scripts/utils/script-helper.ts: the instructions about minting, initialisation and redemptions.
use on_re_sol.Js.{Value}
use on_re_sol.Session.{Platform, Keeps}
use on_re_sol.Session.Calm.{Quiet, of_pure, of_bind, of_option_lem}
use on_re_sol.Network.{NetworkConfig}
use on_re_sol.Helper.Setup.{
  build_initialize_ix, build_initialize_permissionless_authority_ix,
  build_transfer_mint_authority_to_program_ix, build_transfer_mint_authority_to_boss_ix,
  build_mint_to_ix,
}
use on_re_sol.Helper.Redemption.{
  build_make_redemption_offer_ix, build_fulfill_redemption_request_ix,
  build_cancel_redemption_request_ix, build_update_redemption_offer_fee_ix,
  build_create_redemption_request_ix,
}

module _ (p : Platform) (cfg : NetworkConfig) where
  pub build_initialize_ix-Quiet :
      (boss program_data onyc_mint : Value)
      → Keeps Quiet (build_initialize_ix p cfg boss program_data onyc_mint)
  unfolding build_initialize_ix
  build_initialize_ix-Quiet boss program_data onyc_mint = of_pure

  pub build_initialize_permissionless_authority_ix-Quiet :
      (name boss : Value)
      → Keeps Quiet (build_initialize_permissionless_authority_ix p cfg name boss)
  unfolding build_initialize_permissionless_authority_ix
  build_initialize_permissionless_authority_ix-Quiet name boss = of_pure

  pub build_transfer_mint_authority_to_program_ix-Quiet :
      (mint token_program boss : Value)
      → Keeps Quiet (build_transfer_mint_authority_to_program_ix p cfg mint token_program boss)
  unfolding build_transfer_mint_authority_to_program_ix
  build_transfer_mint_authority_to_program_ix-Quiet mint token_program boss = of_pure

  pub build_transfer_mint_authority_to_boss_ix-Quiet :
      (mint token_program boss : Value)
      → Keeps Quiet (build_transfer_mint_authority_to_boss_ix p cfg mint token_program boss)
  unfolding build_transfer_mint_authority_to_boss_ix
  build_transfer_mint_authority_to_boss_ix-Quiet mint token_program boss = of_pure

  pub build_mint_to_ix-Quiet : (amount : Value) → Keeps Quiet (build_mint_to_ix p cfg amount)
  unfolding build_mint_to_ix
  build_mint_to_ix-Quiet amount = of_bind (of_option_lem _ _) λ n1. of_pure

  pub build_make_redemption_offer_ix-Quiet :
      (token_in_mint token_in_program token_out_mint token_out_program fee_basis_points
        boss : Value)
      → Keeps Quiet (
          build_make_redemption_offer_ix p cfg token_in_mint token_in_program token_out_mint
            token_out_program fee_basis_points boss)
  unfolding build_make_redemption_offer_ix
  build_make_redemption_offer_ix-Quiet token_in_mint token_in_program token_out_mint
        token_out_program fee_basis_points boss =
      of_pure

  pub build_fulfill_redemption_request_ix-Quiet :
      (redemption_offer_pda redemption_request_pda redemption_admin : Value)
      → Keeps Quiet (
          build_fulfill_redemption_request_ix p cfg redemption_offer_pda redemption_request_pda
            redemption_admin)
  unfolding build_fulfill_redemption_request_ix
  build_fulfill_redemption_request_ix-Quiet redemption_offer_pda redemption_request_pda
        redemption_admin =
      of_pure

  pub build_cancel_redemption_request_ix-Quiet :
      (redemption_offer_pda redemption_request_pda signer : Value)
      → Keeps Quiet (
          build_cancel_redemption_request_ix p cfg redemption_offer_pda redemption_request_pda
            signer)
  unfolding build_cancel_redemption_request_ix
  build_cancel_redemption_request_ix-Quiet redemption_offer_pda redemption_request_pda signer =
      of_pure

  pub build_update_redemption_offer_fee_ix-Quiet :
      (redemption_offer_pda new_fee_basis_points boss : Value)
      → Keeps Quiet (
          build_update_redemption_offer_fee_ix p cfg redemption_offer_pda new_fee_basis_points boss)
  unfolding build_update_redemption_offer_fee_ix
  build_update_redemption_offer_fee_ix-Quiet redemption_offer_pda new_fee_basis_points boss =
      of_pure

  pub build_create_redemption_request_ix-Quiet :
      (redemption_offer_pda token_in_mint amount redeemer token_program : Value)
      → Keeps Quiet (
          build_create_redemption_request_ix p cfg redemption_offer_pda token_in_mint amount
            redeemer token_program)
  unfolding build_create_redemption_request_ix
  build_create_redemption_request_ix-Quiet redemption_offer_pda token_in_mint amount redeemer
        token_program =
      of_bind (of_option_lem _ _) λ a.
        of_bind (of_option_lem _ _)
          λ b. of_bind (of_option_lem _ _) λ c. of_bind (of_option_lem _ _) λ n. of_pure
