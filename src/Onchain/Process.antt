-- ===== src/Onchain/Process.antt =====
-- programs/onreapp/src/instructions/offer/offer_utils.rs and
-- programs/onreapp/src/instructions/redemption/redemption_utils.rs: what is charged and paid.
pub mod Exchange
pub mod Total
use on_re_sol.Base.{ℕ}
use on_re_sol.Js.{PublicKey, equals}
use on_re_sol.Onchain.Run.{
  Run, ok, ◌>>=◌, ◌>>◌, require, invalid_token_in_mint, invalid_token_out_mint,
}
use on_re_sol.Onchain.Price.{calculate_step_price_at}
use on_re_sol.Onchain.Amounts.{
  calculate_fees, calculate_token_out_amount, redemption_token_out_amount,
}
use on_re_sol.Onchain.Offer.{Offer, OfferVector, find_active_vector_at}

pub record Mint : Type 0 where
  pub address : PublicKey
  pub decimals : ℕ

pub record OfferProcessResult : Type 0 where
  pub current_price : ℕ
  pub token_in_net_amount : ℕ
  pub token_in_fee_amount : ℕ
  pub token_out_amount : ℕ

-- `calculate_current_step_price` of the active vector, at the time of the clock.
unfoldable pub current_step_price : OfferVector → ℕ → Run ℕ
current_step_price v now =
    calculate_step_price_at v.apr v.base_price v.base_time v.price_fix_duration now

unfoldable pub process_offer_core : Offer → ℕ → ℕ → Mint → Mint → Run OfferProcessResult
process_offer_core offer current_time token_in_amount token_in_mint token_out_mint = do
  require (equals offer.token_in_mint token_in_mint.address) invalid_token_in_mint
  require (equals offer.token_out_mint token_out_mint.address) invalid_token_out_mint
  active_vector ← find_active_vector_at offer.vectors current_time
  current_price ← current_step_price active_vector current_time
  fee_amounts ← calculate_fees token_in_amount offer.fee_basis_points
  token_out_amount ←
      calculate_token_out_amount fee_amounts.token_in_net_amount current_price
        token_in_mint.decimals token_out_mint.decimals
  ok (record {
    current_price = current_price;
    token_in_net_amount = fee_amounts.token_in_net_amount;
    token_in_fee_amount = fee_amounts.token_in_fee_amount;
    token_out_amount = token_out_amount;
  })

unfoldable pub process_redemption_core : Offer → ℕ → ℕ → Mint → Mint → ℕ → Run OfferProcessResult
process_redemption_core offer current_time token_in_amount token_in_mint token_out_mint
      redemption_fee_basis_points =
    do
      active_vector ← find_active_vector_at offer.vectors current_time
      current_price ← current_step_price active_vector current_time
      fee_amounts ← calculate_fees token_in_amount redemption_fee_basis_points
      token_out_amount ←
          redemption_token_out_amount fee_amounts.token_in_net_amount current_price
            token_in_mint.decimals token_out_mint.decimals
      ok (record {
        current_price = current_price;
        token_in_net_amount = fee_amounts.token_in_net_amount;
        token_in_fee_amount = fee_amounts.token_in_fee_amount;
        token_out_amount = token_out_amount;
      })
