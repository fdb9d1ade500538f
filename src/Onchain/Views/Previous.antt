-- ===== src/Onchain/Views/Previous.antt =====
-- programs/onreapp/src/instructions/market_info/get_nav_adjustment.rs: the previous vector, and that
-- planning ahead does not change what is reported.
use on_re_sol.Base.{
  ℕ, suc, ◌-◌, ◌<◌, leb, Bool, false, List, [], ◌∷◌, Option, none, some, filter, ◌≡◌, refl, sym, ap,
  ◌∙◌, arith, inl, inr,
}
use on_re_sol.Js.{PublicKey}
use on_re_sol.Onchain.Run.{ok, ok_or, no_active_vector, ◌>>=◌}
use on_re_sol.Onchain.Run.Inversion.{ok-inj}
use on_re_sol.Onchain.State.{State}
use on_re_sol.Onchain.Offer.{
  Offer, OfferVector, new_vector, add_offer_vector, has_begun, max_by_start_time,
  find_active_vector_at,
}
use on_re_sol.Onchain.Offer.Active.{
  Distinct, find_active_vector_at-IsActive, find_active_vector_at-cases,
}
use on_re_sol.Onchain.Offer.Added.{
  Added, add_offer_vector-Added, Added-sound, Added-Distinct, Added-keeps_previous,
}
use on_re_sol.Onchain.Offer.Schedule.{agree, add_offer_vector-schedule}
use on_re_sol.Onchain.Views.{is_before, find_previous_vector, get_nav_adjustment}

before_lem : (time : ℕ) (v : OfferVector) → is_before (suc time) v ≡ has_begun time v
unfolding is_before has_begun
before_lem time v = ground arith

filter-agrees :
    (p q : OfferVector → Bool) (vs : List OfferVector)
    → ((v : OfferVector) → p v ≡ q v)
    → filter p vs ≡ filter q vs
unfolding filter
filter-agrees p q [] h = refl
filter-agrees p q (v ∷ vs) h = rw (h v, filter-agrees p q vs h) refl

-- The vector before a start time other than 0 is the vector that is active one second earlier, and
-- there is none before it exactly where none is active then.
pub find_previous_vector-find_active_vector_at :
    (vectors : List OfferVector) (time : ℕ)
    → ok_or no_active_vector (find_previous_vector vectors (suc time))
      ≡ find_active_vector_at vectors time
unfolding find_previous_vector find_active_vector_at
find_previous_vector-find_active_vector_at vectors time =
    ap (λ vs. ok_or no_active_vector (max_by_start_time vs))
      (filter-agrees (is_before (suc time)) (has_begun time) vectors (before_lem time))

ok_or-inj : (o q : Option OfferVector) → ok_or no_active_vector o ≡ ok_or no_active_vector q → o ≡ q
unfolding ok_or
ok_or-inj none none h = refl
ok_or-inj none (some v) h = cc
ok_or-inj (some v) none h = cc
ok_or-inj (some v) (some w) h = ap some (ok-inj h)

module _ (state : State) (boss : PublicKey) (now : ℕ) (offer : Offer) (start : Option ℕ)
    (base_time base_price apr duration : ℕ) {after : Offer} (d : Distinct offer.vectors)
    (h : add_offer_vector state boss now offer start base_time base_price apr duration ≡ ok after)
    (waits : now < (new_vector now start base_time base_price apr duration).start_time) where
  added_lem :
      Added offer.vectors (new_vector now start base_time base_price apr duration) now after.vectors
  added_lem =
      (add_offer_vector-Added state boss now offer start base_time base_price apr duration after
        h).0

  active-same : find_active_vector_at after.vectors now ≡ find_active_vector_at offer.vectors now
  active-same =
      let waiting : leb ((new_vector now start base_time base_price apr duration).start_time) now
          ≡ false =
        ground (arith, waits) in
      rw waiting at (
        add_offer_vector-schedule state boss now offer start base_time base_price apr duration d h
          now (omega arith))

  previous-same :
      (v : OfferVector)
      → find_active_vector_at offer.vectors now ≡ ok v
      → find_previous_vector after.vectors v.start_time
        ≡ find_previous_vector offer.vectors v.start_time
  previous-same v found =
      let active = find_active_vector_at-IsActive offer.vectors now v found in
      let begun = active.begun in
      let exists = active.exists in
      let before = v.start_time - 1 in
      let next : v.start_time ≡ suc before = omega (arith, exists) in
      let same =
        agree offer.vectors after.vectors before (Added-Distinct added_lem d)
          (λ u m e k. elim (Added-sound added_lem u m e) [
            | inl newest ↦
                let late = ap (λ x. x.start_time) newest in
                absurd (omega (arith, late, begun, waits))
            | inr old ↦ old
          ])
          (λ w running. Added-keeps_previous added_lem v w before waits found next running) in
      rw next (
        ok_or-inj _ _ (
          find_previous_vector-find_active_vector_at after.vectors before
          ∙ same
          ∙ sym (find_previous_vector-find_active_vector_at offer.vectors before)))

  -- If start times are distinct, adding a vector for the future leaves the adjustment of the value
  -- that is reported now as it is: neither the active vector nor the one before it is cleaned away.
  pub get_nav_adjustment-add_offer_vector :
      get_nav_adjustment after now ≡ get_nav_adjustment offer now
  unfolding get_nav_adjustment ◌>>=◌
  get_nav_adjustment-add_offer_vector = elim (find_active_vector_at-cases offer.vectors now) [
    | inl (v, found) ↦ rw (active-same, found, previous-same v found) refl
    | inr nothing ↦ rw (active-same, nothing) refl
  ]
