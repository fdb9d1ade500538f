-- ===== src/Base/Lists.antt =====
-- Lists measured by native numbers, predicates over lists, and dictionaries with text keys.
use Prim.Native.Nat.{ℕ, suc, ◌+◌}
use Prim.Native.String.{String}
use mathlib.Core.Path.{◌≡◌, refl, subst}
use mathlib.Core.Bool.{Bool, true, false, ◌&&◌, ◌||◌}
use mathlib.Core.List.{List, [], ◌∷◌, ◌++◌}
use mathlib.Core.Option.{Option, none, some}
use native.Mathlib.Omega.{arith}
use text.Mathlib.Text.{◌==◌}
use text.Mathlib.TextEquality.{eq_iff}
use mathlib.Core.Logic.{inl, inr}
use on_re_sol.Base.Tests.{Bool-cases, if◌then◌else◌}

module _ {ℓ} {A : Type ℓ} where
  abbrev pub length : List A → ℕ
  length [] = 0
  length (x ∷ xs) = suc (length xs)

  abbrev pub all : (A → Bool) → List A → Bool
  all p [] = true
  all p (x ∷ xs) = p x && all p xs

  abbrev pub any : (A → Bool) → List A → Bool
  any p [] = false
  any p (x ∷ xs) = p x || any p xs

  pub length-append : (xs ys : List A) → length (xs ++ ys) ≡ length xs + length ys
  length-append [] ys = omega arith
  length-append (x ∷ xs) ys = omega (arith, length-append xs ys)

module _ {ℓ κ} {A : Type ℓ} (P : A → Type κ) where
  abbrev pub All : List A → Type κ
  All [] = Unit
  All (x ∷ xs) = P x × All xs

-- `m[k]` of an object with text keys, and `m[k] = v`: an old key keeps its place.
module _ {ℓ} {V : Type ℓ} where
  unfoldable pub lookup : String → List (String × V) → Option V
  lookup name [] = none
  lookup name ((field, value) ∷ others) = if field == name then some value else lookup name others

  unfoldable pub insert : String → V → List (String × V) → List (String × V)
  insert name new [] = (name, new) ∷ []
  insert name new ((field, value) ∷ others) =
      if field == name then (name, new) ∷ others else (field, value) ∷ insert name new others

  pub lookup-insert :
      (object : List (String × V)) (name other : String) (new : V)
      → lookup other (insert name new object)
        ≡ (if name == other then some new else lookup other object)
  unfolding lookup insert
  lookup-insert [] name other new = refl
  lookup-insert ((field, value) ∷ object) name other new = ground (
    lookup-insert object name other new,
    eq_iff field other,
    eq_iff field name,
    eq_iff name other,
    arith,
  )

-- What holds of every entry holds of the one that is found.
pub lookup-All {ℓ κ} :
    {V : Type ℓ} (P : String × V → Type κ) (k : String) (m : List (String × V)) (v : V)
    → lookup k m ≡ some v
    → All P m
    → P (k, v)
unfolding lookup
lookup-All P k [] v h _ = cc
lookup-All P k ((j, w) ∷ m) v h (here, later) = elim (Bool-cases (j == k)) [
  | inl same ↦
      let names : j ≡ k = (eq_iff j k).0 same in
      let values : w ≡ v = ground arith in
      subst (λ x. P (x, v)) names (subst (λ x. P (j, x)) values here)
  | inr differs ↦ lookup-All P k m v (ground arith) later
]
