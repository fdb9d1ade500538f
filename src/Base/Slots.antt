-- ===== src/Base/Slots.antt =====
-- Membership in a list, its filter, and arrays whose slots are found and overwritten.
use Prim.Native.Nat.{ℕ, zero, suc}
use mathlib.Core.Path.{◌≡◌, refl, sym, ap}
use mathlib.Core.Logic.{◌⊎◌, inl, inr}
use mathlib.Core.Bool.{Bool, true, false}
use mathlib.Core.List.{List, [], ◌∷◌, map}
use mathlib.Core.Option.{Option, none, some}
use native.Mathlib.Omega.{arith}
use on_re_sol.Base.Tests.{Bool-cases, if◌then◌else◌}
use on_re_sol.Base.Lists.{length, any}

module _ {A : Type 0} where
  abbrev pub Among : A → List A → Type 0
  Among x [] = ⊥
  Among x (y ∷ ys) = (x ≡ y) ⊎ Among x ys

  unfoldable pub filter : (A → Bool) → List A → List A
  filter p [] = []
  filter p (x ∷ xs) = let rest = filter p xs in if p x then x ∷ rest else rest

  -- `xs.iter().position(p)`
  unfoldable pub position : (A → Bool) → List A → Option ℕ
  position p [] = none
  position p (x ∷ xs) =
      let later = position p xs in
      if p x then some 0 else elim later [ none ↦ none | some i ↦ some (suc i) ]

  -- `xs[i] = x`
  unfoldable pub replace_at : ℕ → A → List A → List A
  replace_at i x [] = []
  replace_at zero x (y ∷ ys) = x ∷ ys
  replace_at (suc i) x (y ∷ ys) = y ∷ replace_at i x ys

  pub length-replace_at : (i : ℕ) (x : A) (xs : List A) → length (replace_at i x xs) ≡ length xs
  unfolding replace_at
  length-replace_at i x [] = refl
  length-replace_at zero x (y ∷ ys) = refl
  length-replace_at (suc i) x (y ∷ ys) = ap suc (length-replace_at i x ys)

  -- What is in the array after a write was there before, or is what was written.
  pub replace_at-Among :
      (i : ℕ) (x : A) (xs : List A) (y : A) → Among y (replace_at i x xs) → (y ≡ x) ⊎ Among y xs
  unfolding replace_at
  replace_at-Among zero x [] y m = absurd m
  replace_at-Among (suc i) x [] y m = absurd m
  replace_at-Among zero x (z ∷ zs) y (inl e) = inl e
  replace_at-Among zero x (z ∷ zs) y (inr m) = inr (inr m)
  replace_at-Among (suc i) x (z ∷ zs) y (inl e) = inr (inl e)
  replace_at-Among (suc i) x (z ∷ zs) y (inr m) = elim (replace_at-Among i x zs y m) [
    | inl e ↦ inl e
    | inr k ↦ inr (inr k)
  ]

  module _ (p : A → Bool) where
    pub filter-Among : (xs : List A) (x : A) → Among x (filter p xs) → Among x xs × (p x ≡ true)
    unfolding filter
    filter-Among [] x h = absurd h
    filter-Among (y ∷ ys) x h = elim (Bool-cases (p y)) [
      | inl kept ↦ elim (rw kept at h) [
        | inl same ↦ (inl same, rw same kept)
        | inr later ↦ let (m, q) = filter-Among ys x later in (inr m, q)
      ]
      | inr dropped ↦ let (m, q) = filter-Among ys x (rw dropped at h) in (inr m, q)
    ]

    pub Among-filter : (xs : List A) (x : A) → Among x xs → p x ≡ true → Among x (filter p xs)
    unfolding filter
    Among-filter [] x h q = absurd h
    Among-filter (y ∷ ys) x (inl same) q =
        let kept : p y ≡ true = rw (← same) q in rw kept (inl same)
    Among-filter (y ∷ ys) x (inr m) q = elim (Bool-cases (p y)) [
      | inl kept ↦ rw kept (inr (Among-filter ys x m q))
      | inr dropped ↦ rw dropped (Among-filter ys x m q)
    ]

    shift :
        (o : Option ℕ) (i : ℕ)
        → elim o as (λ _. Option ℕ) [ none ↦ none | some j ↦ some (suc j) ] ≡ some i
        → (j : ℕ) × (o ≡ some j) × (i ≡ suc j)
    shift none i h = cc
    shift (some j) i h = (j, refl, ground arith)

    pub position-first :
        (z : A) (zs : List A) (i : ℕ)
        → position p (z ∷ zs) ≡ some i
        → ((p z ≡ true) × (i ≡ 0))
          ⊎ ((p z ≡ false) × (j : ℕ) × (position p zs ≡ some j) × (i ≡ suc j))
    unfolding position
    position-first z zs i h = elim (Bool-cases (p z)) [
      | inl found ↦ inl (found, let e = rw found at h in ground arith)
      | inr other ↦
          let (j, there, next) = shift (position p zs) i (rw other at h) in
          inr (other, j, there, next)
    ]

    -- A write to the slot that is found keeps what does not satisfy the test.
    pub position-Among :
        (xs : List A) (i : ℕ) (x : A)
        → position p xs ≡ some i
        → Among x (replace_at i x xs)
          × ((y : A) → Among y xs → p y ≡ false → Among y (replace_at i x xs))
    unfolding replace_at position
    position-Among [] i x h = cc
    position-Among (z ∷ zs) i x h = elim (position-first z zs i h) [
      | inl (found, first) ↦
          rw first (inl refl, λ y m q. elim m [ inl same ↦ cc | inr later ↦ inr later ])
      | inr (_, j, there, next) ↦
          let (new, old) = position-Among zs j x there in
          rw next
            (inr new, λ y m q. elim m [ inl same ↦ inl same | inr later ↦ inr (old y later q) ])
    ]

module _ {A : Type 0} (R : A → A → Type 0) where
  -- Every entry is in the relation with each later one.
  abbrev pub Pairwise : List A → Type 0
  Pairwise [] = Unit
  Pairwise (x ∷ xs) = ((y : A) → Among y xs → R x y) × Pairwise xs

  pub replace_at-Pairwise :
      (i : ℕ) (x : A) (xs : List A)
      → ((y : A) → Among y xs → R x y × R y x)
      → Pairwise xs
      → Pairwise (replace_at i x xs)
  unfolding replace_at
  replace_at-Pairwise i x [] h k = tt
  replace_at-Pairwise zero x (y ∷ ys) h (first, rest) = (λ z m. (h z (inr m)).0, rest)
  replace_at-Pairwise (suc i) x (y ∷ ys) h (first, rest) = (
    λ z m. elim (replace_at-Among i x ys z m) [
      | inl new ↦ rw new (h y (inl refl)).1
      | inr old ↦ first z old
    ],
    replace_at-Pairwise i x ys (λ z m. h z (inr m)) rest,
  )

module _ {A B : Type 0} (f : A → B) where
  pub map-Among : (xs : List A) (y : B) → Among y (map f xs) → (x : A) × Among x xs × (y ≡ f x)
  map-Among [] y h = absurd h
  map-Among (x ∷ xs) y (inl e) = (x, inl refl, e)
  map-Among (x ∷ xs) y (inr m) = let (z, n, e) = map-Among xs y m in (z, inr n, e)

  pub Among-map : (xs : List A) (x : A) → Among x xs → Among (f x) (map f xs)
  Among-map [] x h = absurd h
  Among-map (y ∷ ys) x (inl e) = inl (ap f e)
  Among-map (y ∷ ys) x (inr m) = inr (Among-map ys x m)

  pub length-map : (xs : List A) → length (map f xs) ≡ length xs
  length-map [] = refl
  length-map (x ∷ xs) = ap suc (length-map xs)

pub map-Pairwise :
    {A : Type 0} (R : A → A → Type 0) (f : A → A) (xs : List A)
    → ((x y : A) → R x y → R (f x) (f y))
    → Pairwise R xs
    → Pairwise R (map f xs)
map-Pairwise R f [] h k = tt
map-Pairwise R f (x ∷ xs) h (first, rest) = (
  λ y m. let (z, n, e) = map-Among f xs y m in rw e (h x z (first z n)),
  map-Pairwise R f xs h rest,
)

module _ {A : Type 0} (x : A) where
  -- `[x; n]`
  unfoldable pub repeat : ℕ → List A
  repeat zero = []
  repeat (suc n) = x ∷ repeat n

  pub repeat-Among : (n : ℕ) (y : A) → Among y (repeat n) → y ≡ x
  unfolding repeat
  repeat-Among zero y m = absurd m
  repeat-Among (suc n) y (inl e) = e
  repeat-Among (suc n) y (inr m) = repeat-Among n y m

  pub repeat-Pairwise : (R : A → A → Type 0) (n : ℕ) → R x x → Pairwise R (repeat n)
  unfolding repeat
  repeat-Pairwise R zero h = tt
  repeat-Pairwise R (suc n) h = (λ y m. rw (repeat-Among n y m) h, repeat-Pairwise R n h)

  pub length-repeat : (n : ℕ) → length (repeat n) ≡ n
  unfolding repeat
  length-repeat zero = refl
  length-repeat (suc n) = ap suc (length-repeat n)

module _ {A : Type 0} (p q : A → Bool) where
  -- What is written to the first slot of one kind is found there, if nothing like it was there.
  pub position-replace_at :
      (xs : List A) (i : ℕ) (x : A)
      → position p xs ≡ some i
      → any q xs ≡ false
      → q x ≡ true
      → position q (replace_at i x xs) ≡ some i
  unfolding position replace_at
  position-replace_at [] i x h free new = cc
  position-replace_at (y ∷ ys) i x h free new = elim (position-first p y ys i h) [
    | inl (_, first) ↦ rw first (rw new refl)
    | inr (_, j, there, later) ↦
        let head : q y ≡ false = ground arith in
        let tail : any q ys ≡ false = ground arith in
        rw later (rw (head, position-replace_at ys j x there tail new) refl)
  ]

  -- Writing back what the slots of that kind hold restores the array.
  pub replace_at-undo :
      (xs : List A) (i : ℕ) (x blank : A)
      → position p xs ≡ some i
      → ((y : A) → p y ≡ true → y ≡ blank)
      → replace_at i blank (replace_at i x xs) ≡ xs
  unfolding position replace_at
  replace_at-undo [] i x blank h same = refl
  replace_at-undo (y ∷ ys) i x blank h same = elim (position-first p y ys i h) [
    | inl (here, first) ↦ rw first (ap (λ z. z ∷ ys) (sym (same y here)))
    | inr (_, j, there, later) ↦
        rw later (ap (λ zs. y ∷ zs) (replace_at-undo ys j x blank there same))
  ]
