-- ===== src/Onchain/Views/Yield.antt =====
-- programs/onreapp/src/instructions/market_info/get_apy.rs: the calculation ends.
use on_re_sol.Base.{
  ℕ, zero, suc, ◌/◌, ◌^◌, ◌<◌, ltb, Bool, true, false, if◌then◌else◌, ◌⊎◌, inl, inr, Option, none,
  some, ◌≡◌, refl, arith,
}
use on_re_sol.Onchain.Run.{Run, ok, err, ◌>>=◌, ok_or, checked_div, apy_overflow}
use on_re_sol.Onchain.Run.Inversion.{ok-checked}
use on_re_sol.Onchain.Views.{mul_div_round, pow_rounds, pow_fixed, calculate_apy_from_apr}
use native.Mathlib.Nat.{two-pow-succ}

-- A result, or the overflow error.
abbrev pub Ends : Run ℕ → Type 0
Ends r = ((n : ℕ) × (r ≡ ok n)) ⊎ (r ≡ err apy_overflow)

Ends-bind :
    (m : Run ℕ) (f : ℕ → Run ℕ) → Ends m → ((n : ℕ) → m ≡ ok n → Ends (f n)) → Ends (m >>= f)
unfolding ◌>>=◌
Ends-bind m f (inl (n, same)) rest = rw same (rest n same)
Ends-bind m f (inr failed) rest = inr (rw failed refl)

Ends-ok_or : (o : Option ℕ) → Ends (ok_or apy_overflow o)
unfolding ok_or
Ends-ok_or none = inr refl
Ends-ok_or (some n) = inl (n, refl)

Ends-if : (b : Bool) (x y : Run ℕ) → Ends x → Ends y → Ends (if b then x else y)
Ends-if true x y h k = h
Ends-if false x y h k = k

Ends-div : (fault : _) (a b : ℕ) → 0 < b → Ends (ok_or fault (checked_div a b))
unfolding ok_or checked_div
Ends-div fault a b h =
    let positive : ltb 0 b ≡ true = ground arith in rw positive (inl (a / b, refl))

mul_div_round-Ends : (a b denom : ℕ) → 0 < denom → Ends (mul_div_round a b denom)
unfolding mul_div_round
mul_div_round-Ends a b denom h =
    Ends-bind _ _ (Ends-ok_or _) (λ p _. Ends-bind _ _ (Ends-ok_or _) (λ q _. Ends-div _ q denom h))

-- An exponent of so many bits takes no more than so many rounds.
pow_rounds-Ends :
    (fuel acc base exp scale : ℕ)
    → 0 < scale
    → exp < 2 ^ fuel
    → Ends (pow_rounds fuel acc base exp scale)
unfolding pow_rounds
pow_rounds-Ends fuel acc base zero scale h k = inl (acc, refl)
pow_rounds-Ends zero acc base (suc exp) scale h k = absurd (omega (arith, k))
pow_rounds-Ends (suc fuel) acc base (suc exp) scale h k =
    Ends-bind _ _ (Ends-if _ _ _ (mul_div_round-Ends acc base scale h) (inl (acc, refl))) (λ next _.
      Ends-bind _ _ (Ends-if _ _ _ (mul_div_round-Ends base base scale h) (inl (base, refl)))
        (λ square _.
          pow_rounds-Ends fuel next square (suc exp / 2) scale h
            (let bits = two-pow-succ fuel in omega (arith, bits, k))))

-- The yield of every rate is computed or refused with the overflow error: the loop over the bits of
-- the exponent ends, and nothing is divided by zero.
pub calculate_apy_from_apr-Ends : (apr : ℕ) → Ends (calculate_apy_from_apr apr)
unfolding calculate_apy_from_apr pow_fixed
calculate_apy_from_apr-Ends apr = Ends-bind _ _ (Ends-ok_or _) (λ num _.
    Ends-bind _ _ (Ends-ok_or _) (λ den product.
      let (_, exact) = ok-checked _ _ _ product in
      Ends-bind _ _ (Ends-ok_or _) (λ rounded _.
        Ends-bind _ _ (Ends-div _ rounded den (omega (arith, exact))) (λ incr _.
          Ends-bind _ _ (Ends-ok_or _) (λ base _.
            Ends-bind _ _ (pow_rounds-Ends 32 _ base 365 _ (omega arith) (omega arith)) (λ pow _.
              Ends-bind _ _ (Ends-ok_or _) (λ apy _.
                Ends-bind _ _ (mul_div_round-Ends apy _ _ (omega arith))
                  (λ scaled _. Ends-ok_or _))))))))
