-- ===== src/Onchain/Amounts/Rounding.antt =====
-- programs/onreapp/src/utils/token_utils.rs and
-- programs/onreapp/src/instructions/redemption/redemption_utils.rs: the direction of the rounding.
use on_re_sol.Base.{ℕ, ◌+◌, ◌*◌, ◌/◌, ◌^◌, ◌≤◌, ◌<◌, ◌≡◌, ap, zero, suc, subst, arith}
use on_re_sol.Onchain.Run.{Run, ok, ◌>>=◌}
use on_re_sol.Onchain.Run.Inversion.{ok-inj, ok-require, bind-checked, bind-divide}
use on_re_sol.Onchain.Amounts.{calculate_token_out_amount, redemption_token_out_amount, pow10}
use native.Mathlib.Nat.{
  mul-le-mul_right, le_of_mul-le-mul_right, lt-div-mul-add, div-mul-le_self, mul_assoc, pow-zero,
  pow-suc, add-zero, add-suc, mul-one, one-le-pow,
}

-- A quotient is the greatest number whose product with the divisor is not above the dividend.
quotient : (a b : ℕ) → 0 < b → (a / b * b ≤ a) × (a < (a / b + 1) * b)
quotient a b h =
    let above = lt-div-mul-add {a = a} h in
    (div-mul-le_self a b, subst (λ x. a < x) (grind arith) above)

bind-pow10 : {B : Type 0} (n : ℕ) (f : ℕ → Run B) {b : B} → pow10 n >>= f ≡ ok b → f (10 ^ n) ≡ ok b
unfolding pow10
bind-pow10 n f h = (bind-checked _ _ _ f h).1

-- The amount of tokens that an offer gives is the exact value of what is paid, rounded down to a
-- whole number of the smallest unit.
pub calculate_token_out_amount-bounds :
    (amount price in_decimals out_decimals : ℕ) {out : ℕ}
    → calculate_token_out_amount amount price in_decimals out_decimals ≡ ok out
    → (out * (price * 10 ^ in_decimals) ≤ amount * 10 ^ (out_decimals + 9))
      × (amount * 10 ^ (out_decimals + 9) < (out + 1) * (price * 10 ^ in_decimals))
unfolding calculate_token_out_amount
calculate_token_out_amount-bounds amount price in_decimals out_decimals h =
    let (_, h1) = ok-require _ _ _ h in
    let (_, h2) = ok-require _ _ _ h1 in
    let (_, h3) = ok-require _ _ _ h2 in
    let (_, h4) = bind-checked _ _ _ _ (bind-pow10 _ _ h3) in
    let (_, h5) = bind-checked _ _ _ _ (bind-pow10 _ _ h4) in
    let (divisor, h6) = bind-divide _ _ _ h5 in
    let (_, h7) = ok-require _ _ _ h6 in
    let exact = quotient (amount * 10 ^ (out_decimals + 9)) (price * 10 ^ in_decimals) divisor in
    rw (← ok-inj h7) exact

-- The amount that a redemption pays is the exact value of what is redeemed, rounded down.
pub redemption_token_out_amount-bounds :
    (amount price in_decimals out_decimals : ℕ) {out : ℕ}
    → redemption_token_out_amount amount price in_decimals out_decimals ≡ ok out
    → (out * (10 ^ in_decimals * 10 ^ 9) ≤ amount * price * 10 ^ out_decimals)
      × (amount * price * 10 ^ out_decimals < (out + 1) * (10 ^ in_decimals * 10 ^ 9))
unfolding redemption_token_out_amount
redemption_token_out_amount-bounds amount price in_decimals out_decimals h =
    let (_, h1) = bind-checked _ _ _ _ h in
    let (_, h2) = bind-checked _ _ _ _ (bind-pow10 _ _ h1) in
    let (_, h3) = bind-checked _ _ _ _ (bind-pow10 _ _ (bind-pow10 _ _ h2)) in
    let (divisor, h4) = bind-divide _ _ _ h3 in
    let (_, h5) = ok-require _ _ _ h4 in
    let exact = quotient (amount * price * 10 ^ out_decimals) (10 ^ in_decimals * 10 ^ 9) divisor in
    rw (← ok-inj h5) exact

pow-add : (b n k : ℕ) → b ^ (n + k) ≡ b ^ n * b ^ k
pow-add b n zero = simp (pow-zero b, add-zero n, mul-one (b ^ n))
pow-add b n (suc k) =
    simp (add-suc n k, pow-suc b k, pow-suc b (n + k), pow-add b n k, mul_assoc (b ^ n) (b ^ k) b)

scale_pos : (n : ℕ) → 0 < 10 ^ n * 10 ^ 9
scale_pos n = let least = one-le-pow n 10 (omega arith) in omega (arith, least)

module _ (price : ℕ) (in_decimals out_decimals : ℕ) where
  -- At one price, redeeming no more than what was bought pays back no more than what was paid.
  pub bought-redeemed :
      (paid redeemed : ℕ) {bought back : ℕ}
      → calculate_token_out_amount paid price in_decimals out_decimals ≡ ok bought
      → redeemed ≤ bought
      → redemption_token_out_amount redeemed price out_decimals in_decimals ≡ ok back
      → back ≤ paid
  bought-redeemed paid redeemed {bought} {back} buy less redeem =
      let (cost, _) = calculate_token_out_amount-bounds paid price in_decimals out_decimals buy in
      let (value, _) =
        redemption_token_out_amount-bounds redeemed price out_decimals in_decimals redeem in
      let worth = mul-le-mul_right (price * 10 ^ in_decimals) less in
      let split : paid * 10 ^ (out_decimals + 9) ≡ paid * (10 ^ out_decimals * 10 ^ 9) =
        ap (λ x. paid * x) (pow-add 10 out_decimals 9) in
      let shift : redeemed * price * 10 ^ in_decimals ≡ redeemed * (price * 10 ^ in_decimals) =
        mul_assoc _ _ _ in
      le_of_mul-le-mul_right {k = 10 ^ out_decimals * 10 ^ 9}
        (omega (arith, cost, value, worth, split, shift)) (scale_pos out_decimals)
