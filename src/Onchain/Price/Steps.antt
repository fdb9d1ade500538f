-- ===== src/Onchain/Price/Steps.antt =====
-- programs/onreapp/src/instructions/offer/offer_utils.rs: the price stays within a step and never
-- falls from one step to the next.
use on_re_sol.Base.{ℕ, ◌+◌, ◌-◌, ◌*◌, ◌/◌, ◌≤◌, ◌<◌, leb, ltb, true, ◌≡◌, refl, sym, ◌∙◌, arith}
use on_re_sol.Onchain.Run.{◌>>=◌, ◌>>◌, require, divide, ok_or, checked, checked_div, ok, u64_max}
use on_re_sol.Onchain.Run.Inversion.{ok-require, ok-checked, bind-checked, bind-divide}
use on_re_sol.Onchain.Price.{calculate_step_price_at}
use on_re_sol.Onchain.Price.Exact.{exact_price, calculate_vector_price_lem}
use native.Mathlib.Nat.{
  mul-le-mul_left, mul-le-mul_right, le-div_iff_mul-le, le-mul_of_pos_right, lt-div-mul-add,
  div-mul-le_self,
}

-- The end of the step that `elapsed` is in.
unfoldable pub step_end : ℕ → ℕ → ℕ
step_end duration elapsed = (elapsed / duration + 1) * duration

-- What a step price is that is given: the exact price at the end of the step, and all of it fits.
record Priced (apr base_price base_time duration time price : ℕ) : Type 0 where
  started : base_time ≤ time
  steps : 0 < duration
  ends : step_end duration (time - base_time) ≤ u64_max
  exact : price ≡ exact_price apr base_price (step_end duration (time - base_time))
  fits : exact_price apr base_price (step_end duration (time - base_time)) ≤ u64_max

step_price_lem :
    (apr base_price base_time duration time price : ℕ)
    → apr ≤ u64_max
    → calculate_step_price_at apr base_price base_time duration time ≡ ok price
    → Priced apr base_price base_time duration time price
unfolding calculate_step_price_at step_end
step_price_lem apr base_price base_time duration time price ha h =
    let (started, h1) = ok-require _ _ _ h in
    let (steps, h2) = bind-divide _ _ _ h1 in
    let (_, h3) = bind-checked _ _ _ _ h2 in
    let (ends, h4) = bind-checked _ _ _ _ h3 in
    let (fits, exact) = ok-checked _ _ _ (sym (calculate_vector_price_lem _ _ _ ha ends) ∙ h4) in
    record { started = ground arith; steps = steps; ends = ends; exact = exact; fits = fits }

-- The other way round: where the end of the step and the exact price fit, the price is given.
step_price_given :
    (apr base_price base_time duration time : ℕ)
    → apr ≤ u64_max
    → Priced apr base_price base_time duration time
        (exact_price apr base_price (step_end duration (time - base_time)))
    → calculate_step_price_at apr base_price base_time duration time
      ≡ ok (exact_price apr base_price (step_end duration (time - base_time)))
unfolding calculate_step_price_at step_end ◌>>=◌ ◌>>◌ require divide ok_or checked checked_div
step_price_given apr base_price base_time duration time ha given =
    let step = (time - base_time) / duration in
    let on_time : leb base_time time ≡ true = ground (arith, given.started) in
    let positive : ltb 0 duration ≡ true = ground (arith, given.steps) in
    let ends : leb ((step + 1) * duration) u64_max ≡ true = ground (arith, given.ends) in
    let grows = le-mul_of_pos_right (step + 1) given.steps in
    let small : leb (step + 1) u64_max ≡ true = ground (arith, given.ends, grows) in
    let fits : leb (exact_price apr base_price ((step + 1) * duration)) u64_max ≡ true =
      ground (arith, given.fits) in
    let price = calculate_vector_price_lem apr base_price _ ha given.ends in
    simp (on_time, positive, small, ends, price, fits)

exact_price_mono : (apr base s t : ℕ) → s ≤ t → exact_price apr base s ≤ exact_price apr base t
unfolding exact_price
exact_price_mono apr base s t h =
    let scaled = mul-le-mul_left base (mul-le-mul_left apr h) in omega (arith, scaled)

exact_price-base : (apr base t : ℕ) → base ≤ exact_price apr base t
unfolding exact_price
exact_price-base apr base t = omega arith

step_end_mono : (d s t : ℕ) → 0 < d → s ≤ t → step_end d s ≤ step_end d t
unfolding step_end
step_end_mono d s t hd h =
    let fewer : s / d ≤ t / d =
      (le-div_iff_mul-le hd).1 (let whole = div-mul-le_self s d in omega (arith, whole, h)) in
    mul-le-mul_right d (omega (arith, fewer))

step_end-bounds : (d t : ℕ) → 0 < d → (t < step_end d t) × (step_end d t ≤ t + d)
unfolding step_end
step_end-bounds d t hd =
    let after = lt-div-mul-add {a = t} hd in
    let before = div-mul-le_self t d in
    let spread : (t / d + 1) * d ≡ t / d * d + d = grind arith in
    (omega (arith, after, spread), omega (arith, before, spread))

-- If the price of a vector can be computed at one time, it can be computed at every earlier time
-- since the vector's base time, and the earlier price is at least the base price and at most the
-- later price.
pub calculate_step_price_at_mono :
    (apr base_price base_time duration : ℕ) {s t later : ℕ}
    → apr ≤ u64_max
    → base_time ≤ s
    → s ≤ t
    → calculate_step_price_at apr base_price base_time duration t ≡ ok later
    → (price : ℕ) × (calculate_step_price_at apr base_price base_time duration s ≡ ok price)
      × (base_price ≤ price)
      × (price ≤ later)
calculate_step_price_at_mono apr base_price base_time duration {s} {t} ha started order h =
    let known = step_price_lem apr base_price base_time duration t _ ha h in
    let ends = step_end_mono duration (s - base_time) (t - base_time) known.steps (omega arith) in
    let grows = exact_price_mono apr base_price _ _ ends in
    let limit = known.ends in
    let fits = known.fits in
    let given : Priced apr base_price base_time duration s
        (exact_price apr base_price (step_end duration (s - base_time))) =
      record {
        started = started;
        steps = known.steps;
        ends = omega (arith, ends, limit);
        exact = refl;
        fits = omega (arith, grows, fits);
      } in
    (
      _,
      step_price_given apr base_price base_time duration s ha given,
      exact_price-base apr base_price _,
      omega (arith, grows, known.exact),
    )

-- A price that is computed is at least the continuous price at that time and at most the continuous
-- price one duration later, both exact over unbounded numbers.
pub calculate_step_price_at-bounds :
    (apr base_price base_time duration time : ℕ) {price : ℕ}
    → apr ≤ u64_max
    → calculate_step_price_at apr base_price base_time duration time ≡ ok price
    → (exact_price apr base_price (time - base_time) ≤ price)
      × (price ≤ exact_price apr base_price (time - base_time + duration))
calculate_step_price_at-bounds apr base_price base_time duration time ha h =
    let known = step_price_lem apr base_price base_time duration time _ ha h in
    let (after, before) = step_end-bounds duration (time - base_time) known.steps in
    rw known.exact (
      exact_price_mono apr base_price _ _ (omega (arith, after)),
      exact_price_mono apr base_price _ _ before,
    )
