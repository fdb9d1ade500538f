-- ===== src/Onchain/Offer/Active.antt =====
-- programs/onreapp/src/instructions/offer/offer_utils.rs: which vector is active.
use mathlib.Core.Option.{some-injective}
use on_re_sol.Base.{
  ℕ, ◌≤◌, ◌<◌, ltb, true, false, Bool-cases, Option-cases, ◌⊎◌, inl, inr, List, [], ◌∷◌, some, ◌≡◌,
  refl, sym, ◌∙◌, arith, Among, Pairwise, filter, filter-Among, Among-filter,
}
use on_re_sol.Onchain.Run.{ok, err, ok_or, no_active_vector}
use on_re_sol.Onchain.Run.Inversion.{ok-ok_or}
use on_re_sol.Onchain.Offer.{
  OfferVector, latest, later, max_by_start_time, has_begun, find_active_vector_at,
}

-- `v` is a vector of the array that has begun at `time`, and no other that has begun is later.
pub record IsActive (vectors : List OfferVector) (time : ℕ) (v : OfferVector) : Type 0 where
  pub stored : Among v vectors
  pub exists : 0 < v.start_time
  pub begun : v.start_time ≤ time
  pub last : (u : OfferVector) → Among u vectors → u.start_time ≤ time → u.start_time ≤ v.start_time

-- Two vectors that exist have different start times.
abbrev pub Apart : OfferVector → OfferVector → Type 0
Apart u v = u.start_time ≡ v.start_time → u.start_time ≡ 0

abbrev pub Distinct : List OfferVector → Type 0
Distinct vectors = Pairwise Apart vectors

record Latest (best : OfferVector) (vs : List OfferVector) (r : OfferVector) : Type 0 where
  found : (r ≡ best) ⊎ Among r vs
  above : best.start_time ≤ r.start_time
  rest : (u : OfferVector) → Among u vs → u.start_time ≤ r.start_time

later-cases :
    (best v : OfferVector)
    → ((later best v ≡ best) × (v.start_time ≤ best.start_time))
      ⊎ ((later best v ≡ v) × (best.start_time ≤ v.start_time))
unfolding later
later-cases best v = elim (Bool-cases (ltb v.start_time best.start_time)) [
  | inl older ↦ inl (rw older, ground arith)
  | inr newer ↦ inr (rw newer, ground arith)
]

Latest-cons :
    (best v : OfferVector) (vs : List OfferVector) (r : OfferVector)
    → Latest (later best v) vs r
    → Latest best (v ∷ vs) r
Latest-cons best v vs r h = elim (later-cases best v) [
  | inl (same, order) ↦
      let k = rw same at h in
      let bound = k.above in
      record {
        found = elim k.found [ inl e ↦ inl e | inr m ↦ inr (inr m) ];
        above = bound;
        rest = λ u m. elim m [ inl e ↦ rw e (omega (arith, order, bound)) | inr n ↦ k.rest u n ];
      }
  | inr (same, order) ↦
      let k = rw same at h in
      let bound = k.above in
      record {
        found = inr k.found;
        above = omega (arith, order, bound);
        rest = λ u m. elim m [ inl e ↦ rw e bound | inr n ↦ k.rest u n ];
      }
]

latest_lem : (best : OfferVector) (vs : List OfferVector) → Latest best vs (latest best vs)
unfolding latest
latest_lem best [] = record { found = inl refl; above = omega arith; rest = λ u m. absurd m }
latest_lem best (v ∷ vs) = Latest-cons best v vs _ (latest_lem (later best v) vs)

pub max_lem :
    (vs : List OfferVector) (v : OfferVector)
    → max_by_start_time vs ≡ some v
    → Among v vs × ((u : OfferVector) → Among u vs → u.start_time ≤ v.start_time)
unfolding max_by_start_time
max_lem [] v h = cc
max_lem (w ∷ vs) v h =
    let same : latest w vs ≡ v = some-injective _ _ h in
    let k = rw same at (latest_lem w vs) in
    (k.found, λ u m. elim m [ inl e ↦ rw e k.above | inr n ↦ k.rest u n ])

module _ (time : ℕ) (v : OfferVector) where
  begun_lem : has_begun time v ≡ true → (0 < v.start_time) × (v.start_time ≤ time)
  unfolding has_begun
  begun_lem h = ground arith

  not_begun : has_begun time v ≡ false → v.start_time ≤ time → v.start_time ≡ 0
  unfolding has_begun
  not_begun h k = ground arith

  lem_begun : 0 < v.start_time → v.start_time ≤ time → has_begun time v ≡ true
  unfolding has_begun
  lem_begun e h = ground arith

module _ (vectors : List OfferVector) (time : ℕ) where
  -- The vector that is found has begun, and is the last to have begun.
  pub find_active_vector_at-IsActive :
      (v : OfferVector) → find_active_vector_at vectors time ≡ ok v → IsActive vectors time v
  unfolding find_active_vector_at
  find_active_vector_at-IsActive v h =
      let (among, above) = max_lem (filter (has_begun time) vectors) v (ok-ok_or _ _ v h) in
      let (stored, begun) = filter-Among (has_begun time) vectors v among in
      let (exists, started) = begun_lem time v begun in
      record {
        stored = stored;
        exists = exists;
        begun = started;
        last = λ u m k. elim (Bool-cases (has_begun time u)) [
          | inl running ↦ above u (Among-filter (has_begun time) vectors u m running)
          | inr idle ↦ let none_there = not_begun time u idle k in omega (arith, none_there)
        ];
      }

  -- A vector that has begun is found, or a later one.
  pub find_active_vector_at-exists :
      (u : OfferVector)
      → Among u vectors
      → 0 < u.start_time
      → u.start_time ≤ time
      → (v : OfferVector) × (find_active_vector_at vectors time ≡ ok v)
  unfolding find_active_vector_at max_by_start_time ok_or
  find_active_vector_at-exists u m e k =
      go (filter (has_begun time) vectors)
        (Among-filter (has_begun time) vectors u m (lem_begun time u e k))
    where
      go :
          (vs : List OfferVector)
          → Among u vs
          → (v : OfferVector) × (ok_or no_active_vector (max_by_start_time vs) ≡ ok v)
      go [] n = absurd n
      go (w ∷ vs) n = (latest w vs, refl)

distinct_lem :
    (vs : List OfferVector) (v w : OfferVector)
    → Distinct vs
    → Among v vs
    → Among w vs
    → 0 < v.start_time
    → v.start_time ≡ w.start_time
    → v ≡ w
distinct_lem [] v w d m n e s = absurd m
distinct_lem (u ∷ vs) v w d (inl a) (inl b) e s = a ∙ sym b
distinct_lem (u ∷ vs) v w (first, rest) (inl a) (inr n) e s =
    let zero = first w n (rw (← a) s) in absurd (let z = rw (← a) at zero in omega arith)
distinct_lem (u ∷ vs) v w (first, rest) (inr m) (inl b) e s =
    let zero = first v m (rw (← b) (sym s)) in absurd (let z = rw (← b) at zero in omega arith)
distinct_lem (u ∷ vs) v w (first, rest) (inr m) (inr n) e s = distinct_lem vs v w rest m n e s

-- Where start times are distinct, at most one vector is active at a time, and it is the one found.
pub IsActive-found :
    (vectors : List OfferVector) (time : ℕ) (v : OfferVector)
    → Distinct vectors
    → IsActive vectors time v
    → find_active_vector_at vectors time ≡ ok v
IsActive-found vectors time v distinct active =
    let (w, found) =
      find_active_vector_at-exists vectors time v active.stored active.exists active.begun in
    let other = find_active_vector_at-IsActive vectors time w found in
    let upper = active.last w other.stored other.begun in
    let lower = other.last v active.stored active.begun in
    let same : v ≡ w =
      distinct_lem vectors v w distinct active.stored other.stored active.exists (omega arith) in
    rw same found

pub find_active_vector_at-cases :
    (vectors : List OfferVector) (time : ℕ)
    → ((v : OfferVector) × (find_active_vector_at vectors time ≡ ok v))
      ⊎ (find_active_vector_at vectors time ≡ err no_active_vector)
unfolding find_active_vector_at ok_or
find_active_vector_at-cases vectors time =
    elim (Option-cases (max_by_start_time (filter (has_begun time) vectors))) [
      | inl nothing ↦ inr (rw nothing)
      | inr (v, found) ↦ inl (v, rw found)
    ]
