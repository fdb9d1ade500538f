-- ===== src/Session/Laws.antt =====
-- Rules for steps: what holds of the values that they end in (`Ensures`).
use on_re_sol.Base.{
  ℕ, ◌+◌, Option, some, ◌≡◌, refl, subst, arith, Bool, true, false, if◌then◌else◌, Option-cases,
  inl, inr,
}
use on_re_sol.Session.Data.{World}
use on_re_sol.Session.Monad.{Outcome, ok, throw, M, ◌>>=◌, continue, answer, pure, lift}

-- Every value that m ends in satisfies P.
pub record Ensures {A : Type 0} (P : A → Type 0) (m : M A) : Type 0 where
  pub value : (w : World) (a : A) → (m w).0 ≡ ok a → P a

module _ {A B : Type 0} {P : B → Type 0} where
  continue-Ensures :
      (f : A → M B)
      → ((a : A) → Ensures P (f a))
      → (r : Outcome A × World) (b : B) → (continue f r).0 ≡ ok b
      → P b
  continue-Ensures f h (ok a, w) b e = (h a).value w b e
  continue-Ensures f h (throw s, w) b e = cc

  pub Ensures-bind : (m : M A) {f : A → M B} → ((a : A) → Ensures P (f a)) → Ensures P (m >>= f)
  unfolding ◌>>=◌
  Ensures-bind m {f} h = record { value = λ w b e. continue-Ensures f h (m w) b e }

  continue-Ensures_of :
      {Q : A → Type 0} (f : A → M B)
      → ((a : A) → Q a → Ensures P (f a))
      → (r : Outcome A × World) → ((a : A) → r.0 ≡ ok a → Q a)
      → (b : B) → (continue f r).0 ≡ ok b
      → P b
  continue-Ensures_of f h (ok a, w) q b e = (h a (q a refl)).value w b e
  continue-Ensures_of f h (throw s, w) q b e = cc

  -- What the first part ensures is known in the second.
  pub Ensures-bind_of :
      {Q : A → Type 0} {m : M A} {f : A → M B}
      → Ensures Q m
      → ((a : A) → Q a → Ensures P (f a))
      → Ensures P (m >>= f)
  unfolding ◌>>=◌
  Ensures-bind_of {m} {f} q h = record {
    value = λ w b e. continue-Ensures_of f h (m w) (q.value w) b e;
  }

  -- After a prompt the answer that was given is known.
  pub Ensures-answer :
      {ask : ℕ → Option A} {f : A → M B}
      → ((n : ℕ) (a : A) → ask n ≡ some a → Ensures P (f a))
      → Ensures P (answer ask >>= f)
  unfolding ◌>>=◌ answer
  Ensures-answer {ask} {f} h = record {
    value = λ w b e. elim (Option-cases (ask w.asked)) [
      | inl closed ↦ absurd (ground arith)
      | inr (a, given) ↦
          (h w.asked a given).value (record w { asked = w.asked + 1 }) b (ground arith)
    ];
  }

module _ {A : Type 0} {P : A → Type 0} where
  pub Ensures-lift : {r : Outcome A} → ((a : A) → r ≡ ok a → P a) → Ensures P (lift r)
  Ensures-lift h = record { value = λ w a e. h a e }

  pub Ensures-weaken :
      {Q : A → Type 0} {m : M A} → Ensures Q m → ((a : A) → Q a → P a) → Ensures P m
  Ensures-weaken q h = record { value = λ w a e. h a (q.value w a e) }

  pub Ensures-pure : {a : A} → P a → Ensures P (pure a)
  Ensures-pure {a} h = record { value = λ w b e. subst_ok a b h e }
    where
      subst_ok : (a b : A) → P a → ◌≡◌ {A = Outcome A} (ok a) (ok b) → P b
      subst_ok a b h e = let same : a ≡ b = cc in subst P same h

  pub Ensures-if :
      (b : Bool) {m n : M A}
      → (b ≡ true → Ensures P m)
      → (b ≡ false → Ensures P n)
      → Ensures P (if b then m else n)
  Ensures-if true h k = h refl
  Ensures-if false h k = k refl
