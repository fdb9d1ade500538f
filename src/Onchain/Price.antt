-- ===== src/Onchain/Price.antt =====
-- programs/onreapp/src/instructions/offer/offer_utils.rs: the price of a pricing vector.
pub mod Exact
pub mod Steps
use on_re_sol.Base.{ℕ, ◌+◌, ◌-◌, ◌*◌, ◌/◌, leb}
use on_re_sol.Onchain.Run.{
  Run, ◌>>=◌, ◌>>◌, ok, ok_or, require, checked, checked_div, divide, u64_max, u128_max,
  offer_overflow, no_active_vector, panic,
}

abbrev pub seconds_in_year : ℕ
seconds_in_year = 31_536_000

abbrev pub apr_scale : ℕ
apr_scale = 1_000_000

unfoldable pub calculate_vector_price : ℕ → ℕ → ℕ → Run ℕ
calculate_vector_price apr base_price elapsed_time = do
  factor_den ← ok_or panic (checked u128_max (apr_scale * seconds_in_year))
  y_part ← ok_or offer_overflow (checked u128_max (apr * elapsed_time))
  factor_num ← ok_or offer_overflow (checked u128_max (factor_den + y_part))
  scaled ← ok_or offer_overflow (checked u128_max (base_price * factor_num))
  price_u128 ← ok_or offer_overflow (checked_div scaled factor_den)
  ok_or offer_overflow (checked u64_max price_u128)

-- `saturating_sub` is the subtraction of the model.
unfoldable pub calculate_step_price_at : ℕ → ℕ → ℕ → ℕ → ℕ → Run ℕ
calculate_step_price_at apr base_price base_time price_fix_duration time = do
  require (leb base_time time) no_active_vector
  current_step ← divide (time - base_time) price_fix_duration
  next_step ← ok_or panic (checked u64_max (current_step + 1))
  step_end_time ← ok_or offer_overflow (checked u64_max (next_step * price_fix_duration))
  calculate_vector_price apr base_price step_end_time
