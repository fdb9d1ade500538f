-- ===== src/Helper/Calm/Offers.antt =====
-- scripts/utils/script-helper.ts: the instructions about offers.
use on_re_sol.Js.{PublicKey, Value}
use on_re_sol.Session.{Platform, Keeps}
use on_re_sol.Session.Calm.{Quiet, of_pure, of_bind, of_option_lem}
use on_re_sol.Network.{NetworkConfig}
use on_re_sol.Helper.Offer.{
  missing_account, build_make_offer_ix, build_add_offer_vector_ix, build_update_offer_fee_ix,
  build_delete_offer_vector_ix, build_delete_all_offer_vectors_ix, build_take_offer_ix,
  build_take_offer_permissionless_ix, build_create_permissionless_token_accounts_ixs,
}

module _ (p : Platform) (cfg : NetworkConfig) where
  pub build_make_offer_ix-Quiet :
      (token_in_mint token_out_mint fee_basis_points needs_approval allow_permissionless
        token_in_program boss : Value)
      → Keeps Quiet (
          build_make_offer_ix p cfg token_in_mint token_out_mint fee_basis_points needs_approval
            allow_permissionless token_in_program boss)
  unfolding build_make_offer_ix
  build_make_offer_ix-Quiet token_in_mint token_out_mint fee_basis_points needs_approval
        allow_permissionless token_in_program boss =
      of_pure

  pub build_add_offer_vector_ix-Quiet :
      (token_in_mint token_out_mint base_time base_price apr price_fix_duration boss : Value)
      → Keeps Quiet (
          build_add_offer_vector_ix p cfg token_in_mint token_out_mint base_time base_price apr
            price_fix_duration boss)
  unfolding build_add_offer_vector_ix
  build_add_offer_vector_ix-Quiet token_in_mint token_out_mint base_time base_price apr
        price_fix_duration boss =
      of_bind (of_option_lem _ _) λ n1.
        of_bind (of_option_lem _ _)
          λ n2. of_bind (of_option_lem _ _) λ n3. of_bind (of_option_lem _ _) λ n4. of_pure

  pub build_update_offer_fee_ix-Quiet :
      (token_in_mint token_out_mint new_fee_basis_points boss : Value)
      → Keeps Quiet
          (build_update_offer_fee_ix p cfg token_in_mint token_out_mint new_fee_basis_points boss)
  unfolding build_update_offer_fee_ix
  build_update_offer_fee_ix-Quiet token_in_mint token_out_mint new_fee_basis_points boss = of_pure

  pub build_delete_offer_vector_ix-Quiet :
      (token_in_mint token_out_mint vector_start_timestamp boss : Value)
      → Keeps Quiet (
          build_delete_offer_vector_ix p cfg token_in_mint token_out_mint vector_start_timestamp
            boss)
  unfolding build_delete_offer_vector_ix
  build_delete_offer_vector_ix-Quiet token_in_mint token_out_mint vector_start_timestamp boss =
      of_bind (of_option_lem _ _) λ n1. of_pure

  pub build_delete_all_offer_vectors_ix-Quiet :
      (token_in_mint token_out_mint boss : Value)
      → Keeps Quiet (build_delete_all_offer_vectors_ix p cfg token_in_mint token_out_mint boss)
  unfolding build_delete_all_offer_vectors_ix
  build_delete_all_offer_vectors_ix-Quiet token_in_mint token_out_mint boss = of_pure

  pub build_take_offer_ix-Quiet :
      (token_in_amount token_in_mint token_out_mint user token_in_program token_out_program : Value)
      → Keeps Quiet (
          build_take_offer_ix p cfg token_in_amount token_in_mint token_out_mint user
            token_in_program token_out_program)
  unfolding build_take_offer_ix
  build_take_offer_ix-Quiet token_in_amount token_in_mint token_out_mint user token_in_program
        token_out_program =
      of_bind (of_option_lem _ _) λ n1. of_pure

  pub build_take_offer_permissionless_ix-Quiet :
      (token_in_amount token_in_mint token_out_mint user token_in_program token_out_program : Value)
      → Keeps Quiet (
          build_take_offer_permissionless_ix p cfg token_in_amount token_in_mint token_out_mint user
            token_in_program token_out_program)
  unfolding build_take_offer_permissionless_ix
  build_take_offer_permissionless_ix-Quiet token_in_amount token_in_mint token_out_mint user
        token_in_program token_out_program =
      of_bind (of_option_lem _ _) λ n1. of_pure

  missing_account-Quiet :
      (payer token_mint token_program : Value) (account : PublicKey)
      → Keeps Quiet (missing_account p cfg payer token_mint token_program account)
  unfolding missing_account
  missing_account-Quiet payer token_mint token_program account =
      of_bind (of_option_lem _ _) λ there. of_pure

  pub build_create_permissionless_token_accounts_ixs-Quiet :
      (token_in_mint token_out_mint token_in_program token_out_program payer : Value)
      → Keeps Quiet (
          build_create_permissionless_token_accounts_ixs p cfg token_in_mint token_out_mint
            token_in_program token_out_program payer)
  unfolding build_create_permissionless_token_accounts_ixs
  build_create_permissionless_token_accounts_ixs-Quiet token_in_mint token_out_mint token_in_program
        token_out_program payer =
      of_bind (of_option_lem _ _) λ a.
        of_bind (missing_account-Quiet _ _ _ _) λ xs.
          of_bind (of_option_lem _ _) λ b. of_bind (missing_account-Quiet _ _ _ _) λ ys. of_pure
