-- ===== src/Session/Monad.antt =====
-- Steps of a run: they read and extend the world, and end in a value or in an exception.
use on_re_sol.Base.{ℕ, ◌+◌, String, Bool, [], ◌∷◌, ◌++◌, Option, none, some}
use on_re_sol.Js.{Number}
use on_re_sol.Session.Data.{
  Platform, World, Report, InputSpec, NumberSpec, SelectSpec, ConfirmSpec, Transaction,
}
use on_re_sol.Js.{PublicKey}

pub data Outcome (A : Type 0) : Type 0 where
  ok : A → Outcome A
  throw : String → Outcome A

abbrev pub M : Type 0 → Type 0
M A = World → Outcome A × World

abbrev pub pure : {A : Type 0} → A → M A
pure a w = (ok a, w)

abbrev pub fail : {A : Type 0} → String → M A
fail message w = (throw message, w)

abbrev pub continue : {A B : Type 0} → (A → M B) → Outcome A × World → Outcome B × World
continue f (ok a, w) = f a w
continue f (throw e, w) = (throw e, w)

infixl 5 ◌>>=◌ ◌>>◌
unfoldable pub ◌>>=◌ : {A B : Type 0} → M A → (A → M B) → M B
◌>>=◌ m f w = continue f (m w)

abbrev pub ◌>>◌ : {B : Type 0} → M (Unit {0}) → M B → M B
m >> k = m >>= λ _. k

-- A step that neither reads nor changes the world.
abbrev pub lift : {A : Type 0} → Outcome A → M A
lift r w = (r, w)

-- A library call that may throw.
abbrev pub of_option : {A : Type 0} → String → Option A → M A
of_option message none = fail message
of_option message (some a) = pure a

unfoldable pub show : Report → M (Unit {0})
show r w = (ok tt, record w { shown = w.shown ++ (r ∷ []) })

unfoldable pub copy : String → M (Unit {0})
copy s w = (ok tt, record w { copied = w.copied ++ (s ∷ []) })

unfoldable pub record_send : Transaction → PublicKey → M (Unit {0})
record_send tx signer w = (ok tt, record w { sent = w.sent ++ ((tx, signer) ∷ []) })

-- `process.exit(code)`
unfoldable pub exit : ℕ → M (Unit {0})
exit code w = (ok tt, record w { exit_code = some code })

-- A prompt is counted, and throws if the user closes it.
unfoldable pub answer : {A : Type 0} → (ℕ → Option A) → M A
answer ask w =
    of_option "User force closed the prompt" (ask w.asked) (record w { asked = w.asked + 1 })

module _ (p : Platform) where
  unfoldable pub input : InputSpec → M String
  input q = answer (λ n. p.ask_input n q)

  unfoldable pub number : NumberSpec → M (Option Number)
  number q = answer (λ n. p.ask_number n q)

  unfoldable pub select : SelectSpec → M String
  select q = answer (λ n. p.ask_select n q)

  unfoldable pub confirm : ConfirmSpec → M Bool
  confirm q = answer (λ n. p.ask_confirm n q)

-- `try { m } catch (e) { handler(e) }`
abbrev pub recover : {A : Type 0} → (String → M A) → Outcome A × World → Outcome A × World
recover handler (ok a, w) = (ok a, w)
recover handler (throw e, w) = handler e w

unfoldable pub catch : {A : Type 0} → M A → (String → M A) → M A
catch m handler w = recover handler (m w)
