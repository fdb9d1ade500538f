-- ===== src/Onchain/Offer/Added.antt =====
-- programs/onreapp/src/instructions/offer/add_offer_vector.rs: what an added vector changes.
use on_re_sol.Base.{
  ℕ, suc, ◌≤◌, ◌<◌, ltb, false, Bool-cases, ◌⊎◌, inl, inr, List, Option, some, ◌≡◌, ◌≢◌, refl, sym,
  ap, ◌∙◌, arith, Among, position, replace_at, length, length-replace_at, replace_at-Among,
  replace_at-Pairwise, position-Among,
}
use on_re_sol.Js.{PublicKey}
use on_re_sol.Onchain.Run.{ok}
use on_re_sol.Onchain.Run.Inversion.{ok-inj, ok-bind, ok-then, ok-ok_or}
use on_re_sol.Onchain.State.{State}
use on_re_sol.Onchain.Offer.{
  OfferVector, Offer, starts_at, new_vector, find_vector_index_by_start_time, add_offer_vector,
  find_active_vector_at,
}
use on_re_sol.Onchain.Offer.Active.{IsActive, Apart, Distinct}
use on_re_sol.Onchain.Offer.Cleaned.{Cleaned, clean_old_vectors-Cleaned}
use on_re_sol.Onchain.Offer.Valid.{Acceptable, validate_inputs-Acceptable}

-- `after` is `vectors` with the new vector in a slot that was empty after the cleaning.
pub record Added (vectors : List OfferVector) (new : OfferVector) (now : ℕ)
    (after : List OfferVector) : Type 0 where
  pub cleaned : List OfferVector
  pub slot : ℕ
  pub acceptable : Acceptable new now vectors
  pub cleaning : Cleaned vectors new now cleaned
  pub empty : position (starts_at 0) cleaned ≡ some slot
  pub written : after ≡ replace_at slot new cleaned

pub add_offer_vector-Added :
    (state : State) (boss : PublicKey) (now : ℕ) (offer : Offer) (start : Option ℕ)
    (base_time base_price apr duration : ℕ) (after : Offer)
    → add_offer_vector state boss now offer start base_time base_price apr duration ≡ ok after
    → Added offer.vectors (new_vector now start base_time base_price apr duration) now after.vectors
      × (after ≡ record offer { vectors = after.vectors })
unfolding add_offer_vector find_vector_index_by_start_time
add_offer_vector-Added state boss now offer start base_time base_price apr duration after h =
    let (_, h1) = ok-then _ _ h in
    let (valid, h2) = ok-then _ _ h1 in
    let (cleaned, clean, h3) = ok-bind h2 in
    let (slot, found, h4) = ok-bind h3 in
    let acceptable = validate_inputs-Acceptable _ now offer.vectors valid in
    let same = ok-inj h4 in
    (
      record {
        cleaned = cleaned;
        slot = slot;
        acceptable = acceptable;
        cleaning = clean_old_vectors-Cleaned _ _ now cleaned acceptable.not_past clean;
        empty = ok-ok_or _ _ _ found;
        written = ap (λ o. o.vectors) (sym same);
      },
      rw (← same) refl,
    )

module _ {vectors after : List OfferVector} {new : OfferVector} {now : ℕ}
    (h : Added vectors new now after) where
  -- Every vector that exists after it is the new one or was there before.
  pub Added-sound :
      (u : OfferVector) → Among u after → 0 < u.start_time → (u ≡ new) ⊎ Among u vectors
  Added-sound u m e = elim (replace_at-Among h.slot new h.cleaned u (rw h.written at m)) [
    | inl same ↦ inl same
    | inr old ↦ inr (h.cleaning.sound u old e)
  ]

  pub Added-new : Among new after
  Added-new = rw h.written (position-Among (starts_at 0) h.cleaned h.slot new h.empty).0

  pub Added-keeps :
      (time : ℕ) (v : OfferVector)
      → now ≤ time
      → time < new.start_time
      → IsActive vectors time v
      → Among v after
  Added-keeps time v start before running =
      let kept = h.cleaning.keeps time v start before running in
      let filled : starts_at 0 v ≡ false = let e = running.exists in ground (arith, e) in
      rw h.written ((position-Among (starts_at 0) h.cleaned h.slot new h.empty).1 v kept filled)

  pub Added-keeps_previous :
      (v w : OfferVector) (before : ℕ)
      → now < new.start_time
      → find_active_vector_at vectors now ≡ ok v
      → v.start_time ≡ suc before
      → IsActive vectors before w
      → Among w after
  Added-keeps_previous v w before waits found next running =
      let kept = h.cleaning.keeps_previous v w before waits found next running in
      let filled : starts_at 0 w ≡ false = let e = running.exists in ground (arith, e) in
      rw h.written ((position-Among (starts_at 0) h.cleaned h.slot new h.empty).1 w kept filled)

  fresh : (u : OfferVector) → Among u h.cleaned → u.start_time ≢ new.start_time
  fresh u m e =
      let exists = h.cleaning.in_future in
      let earlier =
        h.acceptable.after_all u (h.cleaning.sound u m (omega (arith, exists)))
          (omega (arith, exists)) in
      omega (arith, earlier)

  pub Added-Distinct : Distinct vectors → Distinct after
  Added-Distinct d = rw h.written (
      replace_at-Pairwise Apart h.slot new h.cleaned
        (λ u m. (λ e. absurd (fresh u m (sym e)), λ e. absurd (fresh u m e)))
        (h.cleaning.distinct d))

  pub Added-length : length after ≡ length vectors
  Added-length = rw h.written (length-replace_at h.slot new h.cleaned ∙ h.cleaning.as_long)

  -- No vector starts after the new one.
  pub Added-latest : (u : OfferVector) → Among u after → u.start_time ≤ new.start_time
  Added-latest u m = elim (Bool-cases (ltb 0 u.start_time)) [
    | inr absent ↦ ground arith
    | inl there ↦ elim (Added-sound u m (ground arith)) [
      | inl same ↦ let start = ap (λ x. x.start_time) same in omega (arith, start)
      | inr old ↦
          let earlier = h.acceptable.after_all u old (ground arith) in omega (arith, earlier)
    ]
  ]
