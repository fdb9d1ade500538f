-- ===== src/Commands/Reports.antt =====
-- scripts/cli/helpers: how a command ends.
use on_re_sol.Base.{List, [], ◌∷◌, ◌++◌, some, ◌≡◌, refl}
use on_re_sol.Js.{Object}
use on_re_sol.Session.{
  Platform, World, error_line, M, Outcome, ok, throw, show, exit, catch, recover, ◌>>=◌, ◌>>◌,
  Ensures, Ensures-bind,
}
use on_re_sol.Network.{NetworkConfig}
use on_re_sol.Prompts.Types.{ParamDefinition}
use on_re_sol.Commands.Wrapper.{command_body, execute_command}

-- How a run ends: with the world of its body, or, after an exception, with that exception shown and
-- the exit code 1.
abbrev pub EndsAs : {A : Type 0} → Outcome A × World → Outcome A × World → Type 0
EndsAs (ok a, v) end = end ≡ (ok a, v)
EndsAs (throw e, v) end =
    (end.1.shown ≡ v.shown ++ (error_line e ∷ []))
    × (end.1.exit_code ≡ some 1)
    × (end.1.sent ≡ v.sent)
    × (end.1.copied ≡ v.copied)

-- A step that never ends in a value.
abbrev pub Throws : {A : Type 0} → M A → Type 0
Throws m = Ensures (λ _. ⊥) m

module _ (p : Platform) (cfg : NetworkConfig) (opts : Object) where
  recover-EndsAs :
      (r : Outcome (Unit {0}) × World)
      → EndsAs r (recover (λ e. show (error_line e) >> exit 1) r)
        × ((recover (λ e. show (error_line e) >> exit 1) r).0 ≡ ok tt)
  unfolding ◌>>=◌ show exit
  recover-EndsAs (ok tt, v) = (refl, refl)
  recover-EndsAs (throw e, v) = ((refl, refl, refl, refl), refl)

  -- A command never throws: it ends like its body, or, where the body throws, with one more line,
  -- which shows the exception, and with the exit code 1.
  pub execute_command-EndsAs :
      (params : List ParamDefinition) (handler : Object → M (Unit {0})) (w : World)
      → EndsAs
          (command_body p cfg opts params handler w)
          (execute_command p cfg opts params handler w)
        × ((execute_command p cfg opts params handler w).0 ≡ ok tt)
  unfolding execute_command catch
  execute_command-EndsAs params handler w =
      recover-EndsAs (command_body p cfg opts params handler w)

  ends :
      (r e : Outcome (Unit {0}) × World)
      → ((a : Unit {0}) → r.0 ≡ ok a → ⊥)
      → EndsAs r e
      → e.1.exit_code ≡ some 1
  ends (ok a, v) e never h = absurd (never a refl)
  ends (throw m, v) e never h = h.1

  body-Throws :
      (params : List ParamDefinition) (handler : Object → M (Unit {0}))
      → Throws (command_body p cfg opts params handler)
      → (w : World) → (execute_command p cfg opts params handler w).1.exit_code ≡ some 1
  body-Throws params handler h w =
      ends (command_body p cfg opts params handler w) (execute_command p cfg opts params handler w)
        (h.value w) (execute_command-EndsAs params handler w).0

  pub handler-Throws :
      (params : List ParamDefinition) (handler : Object → M (Unit {0}))
      → ((values : Object) → Throws (handler values))
      → (w : World) → (execute_command p cfg opts params handler w).1.exit_code ≡ some 1
  unfolding command_body
  handler-Throws params handler h =
      body-Throws params handler (Ensures-bind _ λ _. Ensures-bind _ λ _. Ensures-bind _ h)
