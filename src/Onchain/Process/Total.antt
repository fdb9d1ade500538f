-- ===== src/Onchain/Process/Total.antt =====
-- programs/onreapp/src/instructions/offer/offer_utils.rs: taking an offer does not panic.
use on_re_sol.Base.{ℕ, ◌+◌, ◌-◌, ◌^◌, ◌≤◌, ◌<◌, ◌≡◌, arith}
use on_re_sol.Onchain.Run.{ok, panic, u64_max, u128_max, divide}
use on_re_sol.Onchain.Run.Total.{
  Safe, Safe-ok, Safe-bind, Safe-require, Safe-ok_or, Safe-checked, Safe-divide,
}
use on_re_sol.Onchain.Run.Inversion.{ok-checked, ok-divide}
use on_re_sol.Onchain.Price.{calculate_vector_price, calculate_step_price_at}
use on_re_sol.Onchain.Amounts.{calculate_fees, calculate_token_out_amount, pow10}
use on_re_sol.Onchain.Offer.{Offer, find_active_vector_at}
use on_re_sol.Onchain.Offer.Active.{find_active_vector_at-IsActive}
use on_re_sol.Onchain.Offer.Reachable.{Reachable, Reachable-IsValid}
use on_re_sol.Onchain.Process.{Mint, current_step_price, process_offer_core}
use native.Mathlib.Nat.{pow-le-pow_right, one-le-pow, one-le-mul, div-le_self}

wide_factor : 31_536_000_000_000 ≤ u128_max
unfolding u128_max
wide_factor = omega arith

vector_price-Safe : (apr base t : ℕ) → Safe (calculate_vector_price apr base t)
unfolding calculate_vector_price
vector_price-Safe apr base t = Safe-bind _ _ (Safe-checked panic u128_max _ wide_factor) (λ d _.
    Safe-bind _ _ (Safe-ok_or _ _ (λ e. cc)) (λ y _.
      Safe-bind _ _ (Safe-ok_or _ _ (λ e. cc)) (λ n _.
        Safe-bind _ _ (Safe-ok_or _ _ (λ e. cc))
          (λ s _. Safe-bind _ _ (Safe-ok_or _ _ (λ e. cc)) (λ p _. Safe-ok_or _ _ (λ e. cc))))))

step_price-Safe :
    (apr base_price base_time duration time : ℕ)
    → 0 < duration
    → time < u64_max
    → Safe (calculate_step_price_at apr base_price base_time duration time)
unfolding calculate_step_price_at
step_price-Safe apr base_price base_time duration time positive h =
    let step_fits : (step : ℕ) → divide (time - base_time) duration ≡ ok step → step + 1 ≤ u64_max =
      λ step stepped.
        let (_, exact) = ok-divide _ _ stepped in
        let less = div-le_self (time - base_time) duration in omega (arith, exact, less) in
    Safe-require _ _ _ (λ e. cc)
      (λ _. Safe-bind _ _ (Safe-divide _ _ positive) (λ step stepped.
        Safe-bind _ _ (Safe-checked _ _ _ (step_fits step stepped)) (λ n _.
          Safe-bind _ _ (Safe-ok_or _ _ (λ e. cc))
            (λ end _. vector_price-Safe apr base_price end))))

fees-Safe : (amount bps : ℕ) → Safe (calculate_fees amount bps)
unfolding calculate_fees
fees-Safe amount bps = Safe-bind _ _ (Safe-ok_or _ _ (λ e. cc)) (λ s _.
    Safe-bind _ _ (Safe-ok_or _ _ (λ e. cc)) (λ a _.
      Safe-bind _ _ (Safe-ok_or _ _ (λ e. cc))
        (λ f _. Safe-bind _ _ (Safe-ok_or _ _ (λ e. cc)) (λ n _. Safe-ok _))))

pow10-Safe : (n : ℕ) → n ≤ 27 → Safe (pow10 n)
unfolding pow10 u128_max
pow10-Safe n h =
    let below = pow-le-pow_right {n = 10} (omega arith) h in
    Safe-checked panic u128_max (10 ^ n) (omega (arith, below))

pow10-pos : (n m : ℕ) → pow10 n ≡ ok m → 0 < m
unfolding pow10
pow10-pos n m h =
    let (_, exact) = ok-checked _ _ _ h in
    let least = one-le-pow n 10 (omega arith) in omega (arith, exact, least)

token_out-Safe :
    (amount price in_decimals out_decimals : ℕ)
    → Safe (calculate_token_out_amount amount price in_decimals out_decimals)
unfolding calculate_token_out_amount
token_out-Safe amount price in_decimals out_decimals =
    Safe-require _ _ _ (λ e. cc)
      (λ priced.
        Safe-require _ _ _ (λ e. cc)
          (λ small_in.
            Safe-require _ _ _ (λ e. cc)
              (λ small_out. Safe-bind _ _ (pow10-Safe _ (ground arith)) (λ out_scale _.
                Safe-bind _ _ (Safe-ok_or _ _ (λ e. cc)) (λ numerator _.
                  Safe-bind _ _ (pow10-Safe _ (ground arith)) (λ in_scale scaled.
                    Safe-bind _ _ (Safe-ok_or _ _ (λ e. cc)) (λ denominator divided.
                      Safe-bind _ _
                        (Safe-divide _ _ (
                          let (_, exact) = ok-checked _ _ _ divided in
                          let scale = pow10-pos in_decimals in_scale scaled in
                          let product =
                            one-le-mul {a = price} {b = in_scale} (ground arith) scale in
                          omega (arith, exact, product)))
                        (λ result _. Safe-require _ _ _ (λ e. cc) (λ _. Safe-ok result)))))))))

active-Safe : (offer : Offer) (now : ℕ) → Safe (find_active_vector_at offer.vectors now)
unfolding find_active_vector_at
active-Safe offer now = Safe-ok_or _ _ (λ e. cc)

-- An offer account that instructions can produce is taken without a panic, before the last second
-- that a u64 counts: every amount, of any mints, is exchanged or refused with an error.
pub process_offer_core-Safe :
    (offer : Offer) (now amount : ℕ) (token_in token_out : Mint)
    → Reachable offer
    → now < u64_max
    → Safe (process_offer_core offer now amount token_in token_out)
unfolding process_offer_core current_step_price
process_offer_core-Safe offer now amount token_in token_out reachable time =
    let valid = Reachable-IsValid offer reachable in
    Safe-require _ _ _ (λ e. cc)
      (λ _.
        Safe-require _ _ _ (λ e. cc)
          (λ _. Safe-bind _ _ (active-Safe offer now) (λ v found.
            let active = find_active_vector_at-IsActive offer.vectors now v found in
            let (_, _, duration) = valid.complete v active.stored active.exists in
            Safe-bind _ _ (step_price-Safe _ _ _ _ _ duration time) (λ price _.
              Safe-bind _ _ (fees-Safe _ _)
                (λ fees _. Safe-bind _ _ (token_out-Safe _ _ _ _) (λ out _. Safe-ok _))))))
