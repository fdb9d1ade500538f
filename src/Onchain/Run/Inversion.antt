-- ===== src/Onchain/Run/Inversion.antt =====
-- What is known after an instruction, or a step of one, has ended well.
use on_re_sol.Base.{
  ℕ, ◌-◌, ◌/◌, ◌≤◌, ◌<◌, Bool, true, false, ◌≡◌, refl, ap, arith, subst, if◌then◌else◌, ◌⊎◌, inl,
  inr, Option, none, some,
}
use on_re_sol.Onchain.Run.{
  Run, ok, err, Fault, ◌>>=◌, ◌>>◌, ok_or, require, checked, checked_sub, checked_div, divide,
  panic,
}

module _ {A : Type 0} where
  pub ok-inj : {a b : A} → ok a ≡ ok b → a ≡ b
  ok-inj h = cc

  pub ok-bind :
      {B : Type 0} {m : Run A} {f : A → Run B} {b : B}
      → m >>= f ≡ ok b
      → (a : A) × (m ≡ ok a) × (f a ≡ ok b)
  unfolding ◌>>=◌
  ok-bind {m = ok a} h = (a, refl, h)
  ok-bind {m = err e} h = cc

  pub ok-then :
      (m : Run (Unit {0})) (rest : Run A) {a : A} → (m >> rest) ≡ ok a → (m ≡ ok tt) × (rest ≡ ok a)
  unfolding ◌>>◌
  ok-then (ok tt) rest h = (refl, h)
  ok-then (err fault) rest h = cc

  pub ok-if :
      (b : Bool) {x y : Run A} {a : A}
      → (if b then x else y) ≡ ok a
      → ((b ≡ true) × (x ≡ ok a)) ⊎ ((b ≡ false) × (y ≡ ok a))
  ok-if true h = inl (refl, h)
  ok-if false h = inr (refl, h)

  pub ok-require :
      (b : Bool) (fault : Fault) (rest : Run A) {a : A}
      → (require b fault >> rest) ≡ ok a
      → (b ≡ true) × (rest ≡ ok a)
  unfolding ◌>>◌ require
  ok-require true fault rest h = (refl, h)
  ok-require false fault rest h = cc

pub required : (b : Bool) (fault : Fault) → require b fault ≡ ok tt → b ≡ true
unfolding require
required true fault h = refl
required false fault h = cc

pub ok-ok_or :
    {A : Type 0} (fault : Fault) (o : Option A) (a : A) → ok_or fault o ≡ ok a → o ≡ some a
unfolding ok_or
ok-ok_or fault none a h = cc
ok-ok_or fault (some x) a h = ap some (ok-inj h)

module _ (fault : Fault) {c : ℕ} where
  pub ok-checked : (max n : ℕ) → ok_or fault (checked max n) ≡ ok c → (n ≤ max) × (c ≡ n)
  unfolding ok_or checked
  ok-checked max n h = ground arith

  pub ok-checked_sub : (a b : ℕ) → ok_or fault (checked_sub a b) ≡ ok c → (b ≤ a) × (c ≡ a - b)
  unfolding ok_or checked_sub
  ok-checked_sub a b h = ground arith

  pub ok-checked_div : (a b : ℕ) → ok_or fault (checked_div a b) ≡ ok c → (0 < b) × (c ≡ a / b)
  unfolding ok_or checked_div
  ok-checked_div a b h = ground arith

pub ok-divide : (a b : ℕ) {c : ℕ} → divide a b ≡ ok c → (0 < b) × (c ≡ a / b)
unfolding divide
ok-divide a b h = ok-checked_div panic a b h

module _ {B : Type 0} where
  at :
      (m : Run ℕ) (f : ℕ → Run B) (n : ℕ) {P : Type 0} {b : B}
      → ((c : ℕ) → m ≡ ok c → P × (c ≡ n))
      → m >>= f ≡ ok b
      → P × (f n ≡ ok b)
  at m f n {b} known h =
      let (c, first, rest) = ok-bind h in
      let (p, same) = known c first in (p, subst (λ x. f x ≡ ok b) same rest)

  pub bind-checked :
      (fault : Fault) (max n : ℕ) (f : ℕ → Run B) {b : B}
      → ok_or fault (checked max n) >>= f ≡ ok b
      → (n ≤ max) × (f n ≡ ok b)
  bind-checked fault max n f h = at _ f n (λ c. ok-checked fault max n) h

  pub bind-checked_sub :
      (fault : Fault) (x y : ℕ) (f : ℕ → Run B) {b : B}
      → ok_or fault (checked_sub x y) >>= f ≡ ok b
      → (y ≤ x) × (f (x - y) ≡ ok b)
  bind-checked_sub fault x y f h = at _ f (x - y) (λ c. ok-checked_sub fault x y) h

  pub bind-checked_div :
      (fault : Fault) (x y : ℕ) (f : ℕ → Run B) {b : B}
      → ok_or fault (checked_div x y) >>= f ≡ ok b
      → (0 < y) × (f (x / y) ≡ ok b)
  bind-checked_div fault x y f h = at _ f (x / y) (λ c. ok-checked_div fault x y) h

  pub bind-divide :
      (x y : ℕ) (f : ℕ → Run B) {b : B} → divide x y >>= f ≡ ok b → (0 < y) × (f (x / y) ≡ ok b)
  bind-divide x y f h = at _ f (x / y) (λ c. ok-divide x y) h
