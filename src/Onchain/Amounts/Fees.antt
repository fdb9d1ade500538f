-- ===== src/Onchain/Amounts/Fees.antt =====
-- programs/onreapp/src/utils/token_utils.rs: the fee and what it leaves.
use on_re_sol.Base.{ℕ, ◌+◌, ◌-◌, ◌*◌, ◌/◌, ◌≤◌, ◌<◌, leb, true, ◌≡◌, arith}
use on_re_sol.Onchain.Run.{◌>>=◌, ok, ok_or, checked, checked_sub, checked_div, u64_max, u128_max}
use on_re_sol.Onchain.Amounts.{calculate_fees, CalculateFeeResult, as_u64}
use native.Mathlib.Nat.{mul-le-mul, mul-le-mul_left}

-- With a fee of at most 10000 basis points the fee of every u64 amount is computed. It is the
-- least whole number that is not below the exact fee, and it and the net amount add up to the
-- amount.
pub calculate_fees_lem :
    (amount bps : ℕ)
    → amount ≤ u64_max
    → bps ≤ 10_000
    → (r : CalculateFeeResult) × (calculate_fees amount bps ≡ ok r)
      × (r.token_in_fee_amount + r.token_in_net_amount ≡ amount)
      × (amount * bps ≤ r.token_in_fee_amount * 10_000)
      × (r.token_in_fee_amount * 10_000 < amount * bps + 10_000)
unfolding calculate_fees ◌>>=◌ ok_or checked checked_sub checked_div u64_max u128_max
calculate_fees_lem amount bps ha hb =
    let scaled = mul-le-mul ha hb in
    let limit : amount * bps ≤ amount * 10_000 = mul-le-mul_left amount hb in
    let fits : leb (amount * bps) u128_max ≡ true = ground (arith, scaled) in
    let room : leb (amount * bps + 9_999) u128_max ≡ true = ground (arith, scaled) in
    let fee = (amount * bps + 9_999) / 10_000 in
    let word : as_u64 fee ≡ fee = omega (arith, limit) in
    let covered : leb fee amount ≡ true = ground (arith, limit) in
    (
      record { token_in_fee_amount = fee; token_in_net_amount = amount - fee },
      simp (fits, room, word, covered),
      omega (arith, limit),
      omega arith,
      omega arith,
    )
