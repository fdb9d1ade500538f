-- ===== src/Onchain/Views.antt =====
-- programs/onreapp/src/instructions/market_info: get_nav_adjustment.rs and get_apy.rs.
pub mod Yield
pub mod Previous
use on_re_sol.Base.{
  ℕ, zero, suc, ◌+◌, ◌-◌, ◌*◌, ◌/◌, ◌%◌, ltb, leb, eqb, Bool, true, false, not, ◌&&◌, if◌then◌else◌,
  List, Option, none, some, filter, ℤ, pos, negsuc,
}
use on_re_sol.Onchain.Run.{
  Run, ok, err, ◌>>=◌, ◌>>◌, ok_or, require, checked, checked_sub, checked_div, u64_max, u128_max,
  apy_overflow, apy_div_by_zero, out_of_fuel, panic,
}
use on_re_sol.Onchain.Offer.{Offer, OfferVector, find_active_vector_at, max_by_start_time}
use on_re_sol.Onchain.Process.{current_step_price}

abbrev pub int_scale : ℕ
int_scale = 1_000_000_000_000_000_000

abbrev pub ext_scale : ℕ
ext_scale = 1_000_000

abbrev pub compoundings : ℕ
compoundings = 365

unfoldable pub mul_div_round : ℕ → ℕ → ℕ → Run ℕ
mul_div_round a b denom = do
  prod ← ok_or apy_overflow (checked u128_max (a * b))
  adj ← ok_or apy_overflow (checked u128_max (prod + denom / 2))
  ok_or apy_div_by_zero (checked_div adj denom)

-- One round for each bit of the exponent, of which a u32 has 32.
unfoldable pub pow_rounds : ℕ → ℕ → ℕ → ℕ → ℕ → Run ℕ
pow_rounds fuel acc base zero scale = ok acc
pow_rounds zero acc base (suc exp) scale = err out_of_fuel
pow_rounds (suc fuel) acc base (suc exp) scale = do
  next ← if eqb (suc exp % 2) 1 then mul_div_round acc base scale else ok acc
  square ← if ltb 0 (suc exp / 2) then mul_div_round base base scale else ok base
  pow_rounds fuel next square (suc exp / 2) scale

unfoldable pub pow_fixed : ℕ → ℕ → ℕ → Run ℕ
pow_fixed base exp scale = pow_rounds 32 scale base exp scale

unfoldable pub calculate_apy_from_apr : ℕ → Run ℕ
calculate_apy_from_apr apr_scaled = do
  num ← ok_or apy_overflow (checked u128_max (int_scale * apr_scaled))
  den ← ok_or apy_overflow (checked u128_max (ext_scale * compoundings))
  rounded ← ok_or apy_overflow (checked u128_max (num + den / 2))
  incr ← ok_or apy_div_by_zero (checked_div rounded den)
  base ← ok_or apy_overflow (checked u128_max (int_scale + incr))
  pow ← pow_fixed base compoundings int_scale
  apy_int ← ok_or apy_overflow (checked_sub pow int_scale)
  apy_scaled ← mul_div_round apy_int ext_scale int_scale
  ok_or apy_overflow (checked u64_max apy_scaled)

unfoldable pub get_apy : Offer → ℕ → Run ℕ
get_apy offer current_time = do
  active_vector ← find_active_vector_at offer.vectors current_time
  calculate_apy_from_apr active_vector.apr

unfoldable pub is_before : ℕ → OfferVector → Bool
is_before start v = not (eqb v.start_time 0) && ltb v.start_time start

unfoldable pub find_previous_vector : List OfferVector → ℕ → Option OfferVector
find_previous_vector vectors current_vector_start_time =
    max_by_start_time (filter (is_before current_vector_start_time) vectors)

-- `as i64` keeps the 64 bits.
abbrev pub as_i64 : ℕ → ℤ
as_i64 n =
    if ltb n 9_223_372_036_854_775_808 then pos n else negsuc (18_446_744_073_709_551_615 - n)

-- `-n` of an i64, which panics on the least one.
abbrev pub negate : ℤ → Run ℤ
negate (pos zero) = ok (pos 0)
negate (pos (suc n)) = ok (negsuc n)
negate (negsuc n) = if ltb n 9_223_372_036_854_775_807 then ok (pos (suc n)) else err panic

abbrev pub difference : ℕ → ℕ → Run ℤ
difference a b = if leb b a then ok (as_i64 (a - b)) else negate (as_i64 (b - a))

-- Without a previous vector the price is compared with 0.
unfoldable pub previous_price : Option OfferVector → ℕ → Run ℕ
previous_price none start = ok 0
previous_price (some v) start = current_step_price v start

unfoldable pub get_nav_adjustment : Offer → ℕ → Run ℤ
get_nav_adjustment offer current_time = do
  active_vector ← find_active_vector_at offer.vectors current_time
  current_price ← current_step_price active_vector active_vector.start_time
  previous ←
      previous_price (find_previous_vector offer.vectors active_vector.start_time)
        active_vector.start_time
  difference current_price previous
