-- ===== src/Onchain/Price/Exact.antt =====
-- programs/onreapp/src/instructions/offer/offer_utils.rs: the computed price and the exact one.
use on_re_sol.Base.{
  ℕ, ◌+◌, ◌*◌, ◌/◌, ◌≤◌, ◌<◌, leb, Bool-cases, inl, inr, true, false, ◌≡◌, refl, arith,
}
use on_re_sol.Onchain.Run.{
  Run, ◌>>=◌, checked_div, ok_or, checked, u64_max, u128_max, offer_overflow,
}
use on_re_sol.Onchain.Price.{calculate_vector_price}
use native.Mathlib.Nat.{mul-le-mul, add-mul-div_left}

-- P0 + P0 * apr * t / (scale * year), rounded down once, over unbounded numbers.
unfoldable pub exact_price : ℕ → ℕ → ℕ → ℕ
exact_price apr base_price elapsed_time =
    base_price + base_price * (apr * elapsed_time) / 31_536_000_000_000

-- A result of machine words: the number if it fits, otherwise the overflow error.
abbrev pub fit : ℕ → Run ℕ
fit n = ok_or offer_overflow (checked u64_max n)

exact_price_lem :
    (apr base t : ℕ)
    → base * (31_536_000_000_000 + apr * t) / 31_536_000_000_000 ≡ exact_price apr base t
unfolding exact_price
exact_price_lem apr base t =
    let split : base * (31_536_000_000_000 + apr * t)
        ≡ base * (apr * t) + 31_536_000_000_000 * base =
      grind arith in
    let shift = add-mul-div_left (base * (apr * t)) base {y = 31_536_000_000_000} (omega arith) in
    omega (arith, split, shift)

-- The product of two u64 leaves room for the denominator in a u128.
room : (a b : ℕ) → a ≤ u64_max → b ≤ u64_max → 31_536_000_000_000 + a * b ≤ u128_max
unfolding u64_max u128_max
room a b ha hb = let product = mul-le-mul ha hb in omega (arith, product)

-- Where the scaled price leaves a u128, the price leaves a u64.
too_large : (n : ℕ) → u128_max < n → u64_max < n / 31_536_000_000_000
unfolding u64_max u128_max
too_large n h = omega arith

wide : leb 31_536_000_000_000 u128_max ≡ true
unfolding u128_max
wide = refl

-- The computed price is the exact price of the vector, rounded down once over unbounded numbers, if
-- that fits a u64, and otherwise the overflow error: no step between overflows without it.
pub calculate_vector_price_lem :
    (apr base t : ℕ)
    → apr ≤ u64_max
    → t ≤ u64_max
    → calculate_vector_price apr base t ≡ fit (exact_price apr base t)
unfolding calculate_vector_price ◌>>=◌ ok_or checked checked_div
calculate_vector_price_lem apr base t ha ht =
    let fits = room apr t ha ht in
    let product : leb (apr * t) u128_max ≡ true = ground (arith, fits) in
    let sum : leb (31_536_000_000_000 + apr * t) u128_max ≡ true = ground (arith, fits) in
    let scaled = base * (31_536_000_000_000 + apr * t) in
    let exact = exact_price_lem apr base t in
    elim (Bool-cases (leb scaled u128_max)) [
      | inl small ↦ simp (wide, product, sum, small, exact)
      | inr large ↦
          let over : leb (exact_price apr base t) u64_max ≡ false =
            rw (← exact) (let far = too_large scaled (ground arith) in ground (arith, far)) in
          simp (wide, product, sum, large, over)
    ]
