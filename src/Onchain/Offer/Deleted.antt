-- ===== src/Onchain/Offer/Deleted.antt =====
-- programs/onreapp/src/instructions/offer/delete_offer_vector.rs: what a deletion changes, and that
-- it undoes an addition.
use on_re_sol.Base.{
  ℕ, ◌-◌, ◌≤◌, ◌<◌, ltb, Bool-cases, ◌⊎◌, inl, inr, List, [], ◌∷◌, Option, some, ◌≡◌, ◌≢◌, refl,
  sym, ap, ◌∙◌, arith, Among, position, position-first, position-Among, replace_at,
  replace_at-Among, replace_at-Pairwise, length, length-replace_at,
}
use on_re_sol.Js.{PublicKey}
use on_re_sol.Onchain.Run.{ok}
use on_re_sol.Onchain.Run.Inversion.{ok-inj, ok-bind, ok-then, ok-require, ok-ok_or}
use on_re_sol.Onchain.State.{State}
use on_re_sol.Onchain.Offer.{
  OfferVector, Offer, empty_vector, starts_at, new_vector, find_vector_index_by_start_time,
  add_offer_vector, delete_offer_vector, find_active_vector_at,
}
use on_re_sol.Onchain.Offer.Active.{IsActive, Apart, Distinct}
use on_re_sol.Onchain.Offer.Added.{add_offer_vector-Added, Added-sound, Added-keeps, Added-Distinct}
use on_re_sol.Onchain.Offer.Schedule.{agree}

-- `after` is `vectors` with the first slot of that start time emptied.
pub record Deleted (vectors : List OfferVector) (now start : ℕ) (after : List OfferVector)
    : Type 0 where
  pub slot : ℕ
  pub in_future : now < start
  pub found : position (starts_at start) vectors ≡ some slot
  pub written : after ≡ replace_at slot empty_vector vectors

pub delete_offer_vector-Deleted :
    (state : State) (boss : PublicKey) (now : ℕ) (offer : Offer) (start : ℕ) (after : Offer)
    → delete_offer_vector state boss now offer start ≡ ok after
    → Deleted offer.vectors now start after.vectors
      × (after ≡ record offer { vectors = after.vectors })
unfolding delete_offer_vector find_vector_index_by_start_time
delete_offer_vector-Deleted state boss now offer start after h =
    let (_, h1) = ok-then _ _ h in
    let (future, h2) = ok-require _ _ _ h1 in
    let (slot, found, h3) = ok-bind h2 in
    let same = ok-inj h3 in
    (
      record {
        slot = slot;
        in_future = ground arith;
        found = ok-ok_or _ _ _ found;
        written = ap (λ o. o.vectors) (sym same);
      },
      rw (← same) refl,
    )

empty_write :
    (vectors : List OfferVector) (start slot : ℕ)
    → Distinct vectors
    → position (starts_at start) vectors ≡ some slot
    → (u : OfferVector) → Among u (replace_at slot empty_vector vectors)
    → u.start_time ≡ start
    → start ≡ 0
unfolding replace_at position
empty_write [] start slot d h u m e = cc
empty_write (v ∷ vs) start slot (first, rest) h u m e =
    elim (position-first (starts_at start) v vs slot h) [
      | inl (here, at_first) ↦ elim (rw at_first at m) [
        | inl same ↦ let zero = ap (λ x. x.start_time) same in omega (arith, zero)
        | inr n ↦
            let starts : v.start_time ≡ start = ground arith in
            let apart = first u n (starts ∙ sym e) in omega (arith, apart, starts)
      ]
      | inr (differs, j, there, next) ↦ elim (rw next at m) [
        | inl same ↦ let start_of = ap (λ x. x.start_time) same in ground (arith, start_of)
        | inr n ↦ empty_write vs start j rest there u n e
      ]
    ]

module _ {vectors after : List OfferVector} {now start : ℕ}
    (h : Deleted vectors now start after) where
  Deleted-sound :
      Distinct vectors
      → (u : OfferVector) → Among u after
      → 0 < u.start_time
      → Among u vectors × (u.start_time ≢ start)
  Deleted-sound d u m e =
      let there = rw h.written at m in
      (
        elim (replace_at-Among h.slot empty_vector vectors u there) [
          | inl same ↦ let zero = ap (λ x. x.start_time) same in absurd (omega (arith, zero))
          | inr old ↦ old
        ],
        λ same.
            let zero = empty_write vectors start h.slot d h.found u there same in
            omega (arith, zero),
      )

  Deleted-keeps : (u : OfferVector) → Among u vectors → u.start_time ≢ start → Among u after
  Deleted-keeps u m e =
      rw h.written (
        (position-Among (starts_at start) vectors h.slot empty_vector h.found).1 u m (ground arith))

  pub Deleted-Distinct : Distinct vectors → Distinct after
  Deleted-Distinct d =
      rw h.written
        (replace_at-Pairwise Apart h.slot empty_vector vectors (λ u m. (λ e. refl, λ e. e)) d)

  pub Deleted-length : length after ≡ length vectors
  Deleted-length = rw h.written (length-replace_at h.slot empty_vector vectors)

  pub Deleted-old : (u : OfferVector) → Among u after → (u ≡ empty_vector) ⊎ Among u vectors
  Deleted-old u m = replace_at-Among h.slot empty_vector vectors u (rw h.written at m)

-- What is active at a time was active at each earlier time since its start.
sooner :
    {vectors : List OfferVector} {time earlier : ℕ} {v : OfferVector}
    → IsActive vectors time v
    → earlier ≤ time
    → v.start_time ≤ earlier
    → IsActive vectors earlier v
sooner h order begun = record {
  stored = h.stored;
  exists = h.exists;
  begun = begun;
  last = λ u m k. h.last u m (omega (arith, order));
}

-- If start times are distinct, deleting a vector of the future changes nothing before its start.
pub delete_offer_vector-before :
    (state : State) (boss : PublicKey) (now : ℕ) (offer : Offer) (start : ℕ) {after : Offer}
    → Distinct offer.vectors
    → delete_offer_vector state boss now offer start ≡ ok after
    → (time : ℕ) → time < start
    → find_active_vector_at after.vectors time ≡ find_active_vector_at offer.vectors time
delete_offer_vector-before state boss now offer start {after} d h time k =
    let deleted = (delete_offer_vector-Deleted state boss now offer start after h).0 in
    agree offer.vectors after.vectors time (Deleted-Distinct deleted d)
      (λ u m e j. (Deleted-sound deleted d u m e).0)
      (λ v running.
        let begun = running.begun in
        Deleted-keeps deleted v running.stored (λ e. omega (arith, begun)))

-- If start times are distinct, deleting an added vector by its start time, before it starts,
-- restores the schedule: at every time since the addition the same vector is active as without
-- either, or none.
pub delete-add_offer_vector :
    (state : State) (boss : PublicKey) (now : ℕ) (offer : Offer) (start : Option ℕ)
    (base_time base_price apr duration : ℕ) {middle : Offer} (state' : State) (boss' : PublicKey)
    (later : ℕ) {after : Offer}
    → Distinct offer.vectors
    → add_offer_vector state boss now offer start base_time base_price apr duration ≡ ok middle
    → delete_offer_vector state' boss' later middle
        ((new_vector now start base_time base_price apr duration).start_time)
      ≡ ok after
    → now ≤ later
    → (time : ℕ) → now ≤ time
    → find_active_vector_at after.vectors time ≡ find_active_vector_at offer.vectors time
delete-add_offer_vector state boss now offer start base_time base_price apr duration {middle} state'
      boss' later {after} d add delete order time k =
    let new = new_vector now start base_time base_price apr duration in
    let added =
      (add_offer_vector-Added state boss now offer start base_time base_price apr duration middle
        add).0 in
    let distinct = Added-Distinct added d in
    let deleted =
      (delete_offer_vector-Deleted state' boss' later middle new.start_time after delete).0 in
    let future = deleted.in_future in
    agree offer.vectors after.vectors time (Deleted-Distinct deleted distinct)
      (λ u m e j.
        let (old, differs) = Deleted-sound deleted distinct u m e in
        elim (Added-sound added u old e) [
          | inl same ↦ absurd (differs (ap (λ x. x.start_time) same))
          | inr there ↦ there
        ])
      (λ v running.
        let earlier = added.acceptable.after_all v running.stored running.exists in
        let kept : Among v middle.vectors = elim (Bool-cases (ltb time new.start_time)) [
          | inl waiting ↦ Added-keeps added time v k (ground arith) running
          | inr started ↦
              Added-keeps added (new.start_time - 1) v (omega (arith, future))
                (omega (arith, future)) (sooner running (ground arith) (omega (arith, earlier)))
        ] in
        Deleted-keeps deleted v kept (λ e. omega (arith, earlier)))
