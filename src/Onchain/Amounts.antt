-- ===== src/Onchain/Amounts.antt =====
-- programs/onreapp/src/utils/token_utils.rs and
-- programs/onreapp/src/instructions/redemption/redemption_utils.rs: fees and exchanged amounts.
pub mod Fees
pub mod Rounding
use on_re_sol.Base.{ℕ, ◌+◌, ◌-◌, ◌*◌, ◌/◌, ◌%◌, ◌^◌, leb, ltb}
use on_re_sol.Onchain.Run.{
  Run, ◌>>=◌, ◌>>◌, ok, ok_or, require, checked, checked_sub, checked_div, divide, u64_max,
  u128_max, math_overflow, zero_price_not_allowed, decimals_exceed_max, result_overflow,
  redemption_overflow, panic,
}

abbrev pub max_basis_points : ℕ
max_basis_points = 10_000

abbrev pub price_decimals : ℕ
price_decimals = 9

abbrev pub max_token_decimals : ℕ
max_token_decimals = 18

pub record CalculateFeeResult : Type 0 where
  pub token_in_fee_amount : ℕ
  pub token_in_net_amount : ℕ

-- `as u64` keeps the lowest 64 bits.
abbrev pub as_u64 : ℕ → ℕ
as_u64 n = n % 18_446_744_073_709_551_616

unfoldable pub calculate_fees : ℕ → ℕ → Run CalculateFeeResult
calculate_fees token_in_amount fee_basis_points = do
  scaled ← ok_or math_overflow (checked u128_max (token_in_amount * fee_basis_points))
  adjusted ← ok_or math_overflow (checked u128_max (scaled + (max_basis_points - 1)))
  token_fee_amount ← ok_or math_overflow (checked_div adjusted max_basis_points)
  token_net_amount ← ok_or math_overflow (checked_sub token_in_amount (as_u64 token_fee_amount))
  ok (record {
    token_in_fee_amount = as_u64 token_fee_amount;
    token_in_net_amount = token_net_amount;
  })

-- `10_u128.pow(n)`
unfoldable pub pow10 : ℕ → Run ℕ
pow10 n = ok_or panic (checked u128_max (10 ^ n))

-- The sum of the decimals and 9 stays below 256.
unfoldable pub calculate_token_out_amount : ℕ → ℕ → ℕ → ℕ → Run ℕ
calculate_token_out_amount token_in_amount price token_in_decimals token_out_decimals = do
  require (ltb 0 price) zero_price_not_allowed
  require (leb token_in_decimals max_token_decimals) decimals_exceed_max
  require (leb token_out_decimals max_token_decimals) decimals_exceed_max
  out_scale ← pow10 (token_out_decimals + price_decimals)
  numerator ← ok_or math_overflow (checked u128_max (token_in_amount * out_scale))
  in_scale ← pow10 token_in_decimals
  denominator ← ok_or math_overflow (checked u128_max (price * in_scale))
  result ← divide numerator denominator
  require (leb result u64_max) result_overflow
  ok result

-- The amount that `process_redemption_core` pays out for what is left after the fee.
unfoldable pub redemption_token_out_amount : ℕ → ℕ → ℕ → ℕ → Run ℕ
redemption_token_out_amount token_in_net_amount price token_in_decimals token_out_decimals = do
  value ← ok_or redemption_overflow (checked u128_max (token_in_net_amount * price))
  out_scale ← pow10 token_out_decimals
  numerator ← ok_or redemption_overflow (checked u128_max (value * out_scale))
  in_scale ← pow10 token_in_decimals
  price_scale ← pow10 price_decimals
  denominator ← ok_or redemption_overflow (checked u128_max (in_scale * price_scale))
  result ← divide numerator denominator
  require (leb result u64_max) redemption_overflow
  ok result
