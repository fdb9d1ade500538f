-- ===== src/Onchain/Offer/Cleaned.antt =====
-- programs/onreapp/src/instructions/offer/add_offer_vector.rs: what is left after the cleaning.
use on_re_sol.Base.{
  ℕ, suc, ◌-◌, ◌≤◌, ◌<◌, Bool-cases, if-cases, ◌⊎◌, inl, inr, List, ◌≢◌, ◌≡◌, refl, sym, ap, ◌∙◌,
  arith, Among, map, length, length-map, map-Among, Among-map, map-Pairwise,
}
use on_re_sol.Onchain.Run.{Run, ok, err}
use on_re_sol.Onchain.Run.Inversion.{ok-inj, bind-checked_sub}
use on_re_sol.Onchain.Offer.{
  OfferVector, empty_vector, starts_at, evict, clean_around, clean_old_vectors, clean_from,
  active_with, find_active_vector_at, start_time_or_zero,
}
use on_re_sol.Onchain.Offer.Active.{
  IsActive, Apart, Distinct, find_active_vector_at-IsActive, find_active_vector_at-exists,
}

-- No vector is made up or changed, the length and the distinctness stay, and what is active between
-- now and the start of the new vector is kept.
pub record Cleaned (vectors : List OfferVector) (new : OfferVector) (now : ℕ)
    (cleaned : List OfferVector) : Type 0 where
  pub sound : (u : OfferVector) → Among u cleaned → 0 < u.start_time → Among u vectors
  pub keeps :
      (time : ℕ) (v : OfferVector)
      → now ≤ time
      → time < new.start_time
      → IsActive vectors time v
      → Among v cleaned
  pub keeps_previous :
      (v w : OfferVector) (before : ℕ)
      → now < new.start_time
      → find_active_vector_at vectors now ≡ ok v
      → v.start_time ≡ suc before
      → IsActive vectors before w
      → Among w cleaned
  pub in_future : 0 < new.start_time
  pub as_long : length cleaned ≡ length vectors
  pub distinct : Distinct vectors → Distinct cleaned

module _ (active previous : ℕ) where
  evict-cases :
      (v : OfferVector) → (evict active previous v ≡ v) ⊎ (evict active previous v ≡ empty_vector)
  unfolding evict
  evict-cases v = elim (if-cases _ empty_vector v) [
    | inl cleared ↦ inr cleared
    | inr kept ↦ inl kept
  ]

  evict-recent : (v : OfferVector) → active ≤ v.start_time → evict active previous v ≡ v
  unfolding evict
  evict-recent v h = ground arith

  evict-previous : (v : OfferVector) → v.start_time ≡ previous → evict active previous v ≡ v
  unfolding evict
  evict-previous v h = ground arith

  evict-Apart :
      (u v : OfferVector) → Apart u v → Apart (evict active previous u) (evict active previous v)
  evict-Apart u v h = elim (evict-cases u) [
    | inr cleared ↦ rw cleared (λ e. refl)
    | inl kept ↦ elim (evict-cases v) [
      | inl same ↦ rw (kept, same) h
      | inr cleared ↦ rw (kept, cleared) (λ e. e)
    ]
  ]

active-start :
    (vectors : List OfferVector) (time : ℕ) (w : OfferVector)
    → IsActive vectors time w
    → start_time_or_zero (find_active_vector_at vectors time) ≡ w.start_time
active-start vectors time w running =
    let (u, found) =
      find_active_vector_at-exists vectors time w running.stored running.exists running.begun in
    let other = find_active_vector_at-IsActive vectors time u found in
    let upper = running.last u other.stored other.begun in
    let lower = other.last w running.stored running.begun in rw found (omega (arith, upper, lower))

around-Cleaned :
    (vectors : List OfferVector) (new active : OfferVector) (now : ℕ) (cleaned : List OfferVector)
    → clean_around vectors active ≡ ok cleaned
    → now ≤ new.start_time
    → (0 < active.start_time → 0 < new.start_time)
    → ((time : ℕ) (v : OfferVector)
        → now ≤ time
        → time < new.start_time
        → IsActive vectors time v
        → active.start_time ≤ v.start_time)
    → (now < new.start_time → find_active_vector_at vectors now ≡ ok active)
    → Cleaned vectors new now cleaned
unfolding clean_around
around-Cleaned vectors new active now cleaned h order positive recent current =
    let (exists, h1) = bind-checked_sub _ _ _ _ h in
    let previous = start_time_or_zero (find_active_vector_at vectors (active.start_time - 1)) in
    let clear = evict active.start_time previous in
    let result : map clear vectors ≡ cleaned = ok-inj h1 in
    rw (← result) (record {
      sound = λ u m e.
          let (v, stored, same) = map-Among clear vectors u m in
          elim (evict-cases active.start_time previous v) [
            | inl kept ↦ rw (same, kept) stored
            | inr cleared ↦
                let empty : u.start_time ≡ 0 =
                  ap (λ x. x.start_time) same ∙ ap (λ x. x.start_time) cleared in
                absurd (omega (arith, empty, e))
          ];
      keeps = λ time v start before running.
          let kept =
            evict-recent active.start_time previous v (recent time v start before running) in
          rw kept at (Among-map clear vectors v running.stored);
      keeps_previous = λ v w before waits found next running.
          let same : v ≡ active = ok-inj (sym found ∙ current waits) in
          let start = ap (λ x. x.start_time) same in
          let moment : active.start_time - 1 ≡ before = omega (arith, start, next) in
          let kept = evict-previous active.start_time previous w (
            sym (
              ap (λ t. start_time_or_zero (find_active_vector_at vectors t)) moment
              ∙ active-start vectors before w running)) in
          rw kept at (Among-map clear vectors w running.stored);
      in_future = positive (omega (arith, exists));
      as_long = length-map clear vectors;
      distinct = map-Pairwise Apart clear vectors (evict-Apart active.start_time previous);
    })

active_with-cases :
    (vectors : List OfferVector) (new : OfferVector) (now : ℕ)
    → ((new.start_time ≡ now) × (active_with vectors new now ≡ ok new))
      ⊎ ((new.start_time ≢ now) × (active_with vectors new now ≡ find_active_vector_at vectors now))
unfolding active_with
active_with-cases vectors new now = elim (Bool-cases (starts_at now new)) [
  | inl starts ↦ inl (ground arith, rw starts)
  | inr waits ↦ inr (λ e. ground arith, rw waits)
]

module _ (vectors : List OfferVector) (new : OfferVector) (now : ℕ) (cleaned : List OfferVector)
    (order : now ≤ new.start_time) where
  waiting :
      (r : Run OfferVector)
      → new.start_time ≢ now
      → find_active_vector_at vectors now ≡ r
      → clean_from vectors r ≡ ok cleaned
      → Cleaned vectors new now cleaned
  waiting (ok active) waits found h =
      let current = find_active_vector_at-IsActive vectors now active found in
      around-Cleaned vectors new active now cleaned h order (λ e. omega arith)
        (λ time v start before running.
          let begun = current.begun in running.last active current.stored (omega (arith, begun)))
        (λ later. found)
  waiting (err fault) waits found h = rw (← ok-inj h) (record {
    sound = λ u m e. m;
    keeps = λ time v start before running. running.stored;
    keeps_previous = λ v w before waits_more now_active next running. running.stored;
    in_future = omega arith;
    as_long = refl;
    distinct = λ d. d;
  })

  pub clean_old_vectors-Cleaned :
      clean_old_vectors vectors new now ≡ ok cleaned → Cleaned vectors new now cleaned
  unfolding clean_old_vectors
  clean_old_vectors-Cleaned h = elim (active_with-cases vectors new now) [
    | inl (at_once, same) ↦
        around-Cleaned vectors new new now cleaned (rw same at h) order (λ e. e)
          (λ time v start before running. absurd (omega (arith, at_once)))
          (λ later. absurd (omega (arith, at_once)))
    | inr (waits, same) ↦ waiting _ waits refl (rw same at h)
  ]
