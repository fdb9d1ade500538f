-- ===== src/Onchain/Offer/Schedule.antt =====
-- programs/onreapp/src/instructions/offer: the vectors as a schedule, which says for each time from
-- now on which vector is active.
use on_re_sol.Base.{
  ℕ, ◌≤◌, ◌<◌, leb, ltb, Bool-cases, if◌then◌else◌, inl, inr, List, Option, ◌≡◌, sym, ap, ◌∙◌,
  arith, Among,
}
use on_re_sol.Js.{PublicKey}
use on_re_sol.Onchain.Run.{ok}
use on_re_sol.Onchain.State.{State}
use on_re_sol.Onchain.Offer.{
  OfferVector, Offer, new_vector, add_offer_vector, find_active_vector_at,
}
use on_re_sol.Onchain.Offer.Active.{
  IsActive, Distinct, find_active_vector_at-IsActive, find_active_vector_at-exists, IsActive-found,
  find_active_vector_at-cases,
}
use on_re_sol.Onchain.Offer.Added.{
  add_offer_vector-Added, Added-sound, Added-new, Added-keeps, Added-latest, Added-Distinct,
}

-- Two arrays agree at a time if the second has no vector of its own that has begun by then, and
-- has the vector that is active in the first.
pub agree :
    (vectors after : List OfferVector) (time : ℕ)
    → Distinct after
    → ((u : OfferVector) → Among u after → 0 < u.start_time → u.start_time ≤ time → Among u vectors)
    → ((v : OfferVector) → IsActive vectors time v → Among v after)
    → find_active_vector_at after time ≡ find_active_vector_at vectors time
agree vectors after time distinct sound keeps = elim (find_active_vector_at-cases vectors time) [
  | inl (v, found) ↦
      let active = find_active_vector_at-IsActive vectors time v found in
      let exists = active.exists in
      IsActive-found after time v distinct (record {
        stored = keeps v active;
        exists = exists;
        begun = active.begun;
        last = λ u m k. elim (Bool-cases (ltb 0 u.start_time)) [
          | inl there ↦ active.last u (sound u m (ground arith) k) k
          | inr absent ↦ ground (arith, exists)
        ];
      })
      ∙ sym found
  | inr nothing ↦ elim (find_active_vector_at-cases after time) [
    | inl (v, found) ↦
        let active = find_active_vector_at-IsActive after time v found in
        let (w, other) =
          find_active_vector_at-exists vectors time v
            (sound v active.stored active.exists active.begun) active.exists active.begun in
        cc
    | inr none_there ↦ none_there ∙ sym nothing
  ]
]

-- If start times are distinct, adding a vector changes the schedule from its start time on and
-- nothing before it: from now on, the new vector is active once its start time has come, and until
-- then what was active without it, or none.
pub add_offer_vector-schedule :
    (state : State) (boss : PublicKey) (now : ℕ) (offer : Offer) (start : Option ℕ)
    (base_time base_price apr duration : ℕ) {after : Offer}
    → Distinct offer.vectors
    → add_offer_vector state boss now offer start base_time base_price apr duration ≡ ok after
    → (time : ℕ) → now ≤ time
    → let new = new_vector now start base_time base_price apr duration in
      find_active_vector_at after.vectors time
      ≡ (if leb new.start_time time then ok new else find_active_vector_at offer.vectors time)
add_offer_vector-schedule state boss now offer start base_time base_price apr duration {after} d h
      time k =
    let new = new_vector now start base_time base_price apr duration in
    let added =
      (add_offer_vector-Added state boss now offer start base_time base_price apr duration after
        h).0 in
    let distinct = Added-Distinct added d in
    elim (Bool-cases (leb new.start_time time)) [
      | inl started ↦ rw started (
          IsActive-found after.vectors time new distinct (record {
            stored = Added-new added;
            exists = added.cleaning.in_future;
            begun = ground arith;
            last = λ u m j. Added-latest added u m;
          }))
      | inr waiting ↦ rw waiting (
          agree offer.vectors after.vectors time distinct
            (λ u m e j. elim (Added-sound added u m e) [
              | inl same ↦ let late = ap (λ x. x.start_time) same in absurd (ground (arith, late))
              | inr old ↦ old
            ])
            (λ v running. Added-keeps added time v k (ground arith) running))
    ]
