-- ===== src/Session/Calm.antt =====
-- Rules for the steps that neither send a transaction nor copy one.
use on_re_sol.Base.{ℕ, ◌+◌, Option, ◌≡◌, refl, ◌∙◌, String}
use on_re_sol.Session.Data.{World, Platform, Report, InputSpec, NumberSpec, SelectSpec, ConfirmSpec}
use on_re_sol.Session.Monad.{
  Outcome, M, ◌>>=◌, answer, of_option, lift, show, exit, input, number, select, confirm,
}
use on_re_sol.Session.Effects.{Keeps, Absorbs, Keeps-bind, Keeps-of_option}

-- Nothing is signed and sent, and nothing is copied.
abbrev pub Quiet : World → World → Type 0
Quiet u v = (v.sent ≡ u.sent) × (v.copied ≡ u.copied)

pub Quiet-Absorbs : Absorbs Quiet Quiet
Quiet-Absorbs = record {
  still = λ w. (refl, refl);
  first = λ u v w h k. (k.0 ∙ h.0, k.1 ∙ h.1);
  last = λ u v w h k. (k.0 ∙ h.0, k.1 ∙ h.1);
}

pub of_pure : {A : Type 0} {r : Outcome A} → Keeps Quiet (lift r)
of_pure = record { after = λ w. (refl, refl) }

pub of_option_lem :
    {A : Type 0} (message : String) (o : Option A) → Keeps Quiet (of_option message o)
of_option_lem message o = Keeps-of_option message o (λ w. (refl, refl))

pub of_bind :
    {A B : Type 0} {m : M A} {f : A → M B}
    → Keeps Quiet m
    → ((a : A) → Keeps Quiet (f a))
    → Keeps Quiet (m >>= f)
of_bind h k = Keeps-bind Quiet-Absorbs h k

pub of_show : (r : Report) → Keeps Quiet (show r)
unfolding show
of_show r = record { after = λ w. (refl, refl) }

pub of_exit : (n : ℕ) → Keeps Quiet (exit n)
unfolding exit
of_exit n = record { after = λ w. (refl, refl) }

pub of_answer : {A : Type 0} (ask : ℕ → Option A) → Keeps Quiet (answer ask)
unfolding answer
of_answer ask = record {
  after = λ w. (of_option_lem _ (ask w.asked)).after (record w { asked = w.asked + 1 });
}

module _ (p : Platform) where
  pub of_input : (q : InputSpec) → Keeps Quiet (input p q)
  unfolding input
  of_input q = of_answer _

  pub of_number : (q : NumberSpec) → Keeps Quiet (number p q)
  unfolding number
  of_number q = of_answer _

  pub of_select : (q : SelectSpec) → Keeps Quiet (select p q)
  unfolding select
  of_select q = of_answer _

  pub of_confirm : (q : ConfirmSpec) → Keeps Quiet (confirm p q)
  unfolding confirm
  of_confirm q = of_answer _
