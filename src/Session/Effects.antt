-- ===== src/Session/Effects.antt =====
-- Rules for the worlds before and after a step (`Keeps`).
use on_re_sol.Base.{
  ℕ, Option, none, some, ◌≡◌, refl, arith, Bool, true, false, if◌then◌else◌, String,
}
use on_re_sol.Session.Data.{World}
use on_re_sol.Session.Laws.{Ensures}
use on_re_sol.Session.Monad.{
  Outcome, ok, throw, M, ◌>>=◌, continue, answer, of_option, lift, catch, recover,
}

-- The worlds before and after m are related by S.
pub record Keeps {A : Type 0} (S : World → World → Type 0) (m : M A) : Type 0 where
  pub after : (w : World) → S w (m w).1

-- S holds over steps of R, also before and after steps of S.
pub record Absorbs (R S : World → World → Type 0) : Type 0 where
  pub still : (w : World) → S w w
  pub first : (u v w : World) → R u v → S v w → S u w
  pub last : (u v w : World) → S u v → R v w → S u w

module _ {R S : World → World → Type 0} (law : Absorbs R S) where
  pub Keeps-still : {A : Type 0} {r : Outcome A} → Keeps S (lift r)
  Keeps-still = record { after = law.still }

  pub Keeps-weaken : {A : Type 0} {m : M A} → Keeps R m → Keeps S m
  Keeps-weaken {m} h = record { after = λ w. law.last w w (m w).1 (law.still w) (h.after w) }

  continue-Keeps :
      {A B : Type 0} (f : A → M B)
      → ((a : A) → Keeps S (f a))
      → (w : World) (r : Outcome A × World) → R w r.1
      → S w (continue f r).1
  continue-Keeps f h w (ok a, w') s = law.first w w' (f a w').1 s ((h a).after w')
  continue-Keeps f h w (throw e, w') s = law.last w w w' (law.still w) s

  -- Steps of R, and then a part that keeps S.
  pub Keeps-bind :
      {A B : Type 0} {m : M A} {f : A → M B}
      → Keeps R m
      → ((a : A) → Keeps S (f a))
      → Keeps S (m >>= f)
  unfolding ◌>>=◌
  Keeps-bind {m} {f} h k = record { after = λ w. continue-Keeps f k w (m w) (h.after w) }

  continue-Keeps_of :
      {A B : Type 0} (Q : A → Type 0) (f : A → M B)
      → ((a : A) → Q a → Keeps S (f a))
      → (w : World) (r : Outcome A × World) → ((a : A) → r.0 ≡ ok a → Q a)
      → R w r.1
      → S w (continue f r).1
  continue-Keeps_of Q f h w (ok a, w') q s = law.first w w' (f a w').1 s ((h a (q a refl)).after w')
  continue-Keeps_of Q f h w (throw e, w') q s = law.last w w w' (law.still w) s

  -- The same, where what the steps ensure of their value is known in the second part.
  pub Keeps-bind_of :
      {A B : Type 0} {Q : A → Type 0} {m : M A} {f : A → M B}
      → Keeps R m
      → Ensures Q m
      → ((a : A) → Q a → Keeps S (f a))
      → Keeps S (m >>= f)
  unfolding ◌>>=◌
  Keeps-bind_of {Q} {m} {f} h e k = record {
    after = λ w. continue-Keeps_of Q f k w (m w) (e.value w) (h.after w);
  }

  continue-Keeps_last :
      {A B : Type 0} (f : A → M B)
      → ((a : A) → Keeps R (f a))
      → (w : World) (r : Outcome A × World) → S w r.1
      → S w (continue f r).1
  continue-Keeps_last f h w (ok a, w') s = law.last w w' (f a w').1 s ((h a).after w')
  continue-Keeps_last f h w (throw e, w') s = s

  -- A part that keeps S, and then steps of R.
  pub Keeps-bind_last :
      {A B : Type 0} {m : M A} {f : A → M B}
      → Keeps S m
      → ((a : A) → Keeps R (f a))
      → Keeps S (m >>= f)
  unfolding ◌>>=◌
  Keeps-bind_last {m} {f} h k = record { after = λ w. continue-Keeps_last f k w (m w) (h.after w) }

  recover-Keeps :
      {A : Type 0} (handler : String → M A)
      → ((e : String) → Keeps R (handler e))
      → (w : World) (r : Outcome A × World) → S w r.1
      → S w (recover handler r).1
  recover-Keeps handler h w (ok a, w') s = s
  recover-Keeps handler h w (throw e, w') s = law.last w w' (handler e w').1 s ((h e).after w')

  pub Keeps-catch :
      {A : Type 0} {m : M A} {handler : String → M A}
      → Keeps S m
      → ((e : String) → Keeps R (handler e))
      → Keeps S (catch m handler)
  unfolding catch
  Keeps-catch {m} {handler} h k = record {
    after = λ w. recover-Keeps handler k w (m w) (h.after w);
  }

-- A prompt ends in an answer that was given to some question number.
pub answer-Ensures :
    {A : Type 0} (ask : ℕ → Option A) → Ensures (λ a. (n : ℕ) × (ask n ≡ some a)) (answer ask)
unfolding answer
answer-Ensures ask = record { value = λ w a e. (w.asked, ground arith) }

module _ {S : World → World → Type 0} where
  pub Keeps-if :
      {A : Type 0} (b : Bool) {m n : M A}
      → (b ≡ true → Keeps S m)
      → (b ≡ false → Keeps S n)
      → Keeps S (if b then m else n)
  Keeps-if true h k = h refl
  Keeps-if false h k = k refl

  pub Keeps-of_option :
      {A : Type 0} (message : String) (o : Option A)
      → ((w : World) → S w w)
      → Keeps S (of_option message o)
  Keeps-of_option message none still = record { after = still }
  Keeps-of_option message (some a) still = record { after = still }
