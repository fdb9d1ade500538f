-- ===== src/Onchain/Offer/Valid.antt =====
-- programs/onreapp/src/instructions/offer: what holds of every offer account that the instructions
-- leave behind.
use on_re_sol.Base.{
  ℕ, ◌≤◌, ◌<◌, ltb, true, Option-cases, inl, inr, List, [], ◌∷◌, none, ◌≡◌, arith, Among, filter,
  Among-filter,
}
use on_re_sol.Onchain.Run.{ok}
use on_re_sol.Onchain.Offer.{
  OfferVector, existing, validate_inputs, after_latest, is_after, max_by_start_time,
}
use on_re_sol.Onchain.Offer.Active.{max_lem}
use on_re_sol.Onchain.Run.Inversion.{ok-require, required}

-- What `validate_inputs` has made sure of.
pub record Acceptable (new : OfferVector) (now : ℕ) (vectors : List OfferVector) : Type 0 where
  pub not_past : now ≤ new.start_time
  pub base_time_set : 0 < new.base_time
  pub base_price_set : 0 < new.base_price
  pub duration_set : 0 < new.price_fix_duration
  pub after_all :
      (u : OfferVector) → Among u vectors → 0 < u.start_time → u.start_time < new.start_time

no_max : (vs : List OfferVector) → max_by_start_time vs ≡ none → (u : OfferVector) → Among u vs → ⊥
unfolding max_by_start_time
no_max [] h u m = m
no_max (v ∷ vs) h u m = cc

bounded :
    (start : ℕ) (vs : List OfferVector)
    → is_after start (max_by_start_time vs) ≡ true
    → (u : OfferVector) → Among u vs
    → u.start_time < start
bounded start vs h u m = elim (Option-cases (max_by_start_time vs)) [
  | inl nothing ↦ absurd (no_max vs nothing u m)
  | inr (v, found) ↦
      let (_, above) = max_lem vs v found in
      let bound = above u m in
      let after : ltb v.start_time start ≡ true = rw found at h in ground (arith, bound, after)
]

after_latest_lem :
    (start : ℕ) (vectors : List OfferVector)
    → after_latest start vectors ≡ true
    → (u : OfferVector) → Among u vectors
    → 0 < u.start_time
    → u.start_time < start
unfolding after_latest
after_latest_lem start vectors h u m e =
    bounded start (filter existing vectors) h u (Among-filter existing vectors u m (ground arith))

pub validate_inputs-Acceptable :
    (new : OfferVector) (now : ℕ) (vectors : List OfferVector)
    → validate_inputs new now vectors ≡ ok tt
    → Acceptable new now vectors
unfolding validate_inputs
validate_inputs-Acceptable new now vectors h =
    let (not_past, h1) = ok-require _ _ _ h in
    let (base_time, h2) = ok-require _ _ _ h1 in
    let (base_price, h3) = ok-require _ _ _ h2 in
    let (duration, h4) = ok-require _ _ _ h3 in
    let (_, h5) = ok-require _ _ _ h4 in
    record {
      not_past = ground arith;
      base_time_set = ground arith;
      base_price_set = ground arith;
      duration_set = ground arith;
      after_all = after_latest_lem new.start_time vectors (required _ _ h5);
    }
