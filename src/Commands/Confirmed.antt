-- ===== src/Commands/Confirmed.antt =====
-- scripts/cli/implementations/state: state-kill-switch and state-close, and their confirmations.
use on_re_sol.Base.{
  ℕ, String, ◌<>◌, Bool, true, false, not, ◌&&◌, ◌||◌, List, [], some, eq_iff, ◌≡◌, refl, ◌∙◌, ap,
  ◌⊎◌, inl, inr, arith, Bool-cases, if◌then◌else◌,
}
use on_re_sol.Js.{Object, undefined}
use on_re_sol.Session.{
  Platform, World, InputSpec, accept, Report, line, M, show, pure, input, ◌>>=◌, ◌>>◌, Ensures,
  Ensures-bind, Ensures-answer, Ensures-pure, Keeps, Absorbs, Keeps-bind, Keeps-bind_of, Keeps-if,
  Keeps-catch, Keeps-weaken,
}
use on_re_sol.Session.Calm.{Quiet, of_pure, of_bind, of_show}
use on_re_sol.Network.{NetworkConfig}
use on_re_sol.Prompts.Types.{ParamDefinition}
use on_re_sol.Prompts.Calm.{calm, prompt_for_params-Quiet}
use on_re_sol.Commands.Wrapper.{
  is_json, is_dry_run, is_no_interactive, command_body, execute_command,
  confirm_dangerous_operation,
}
use on_re_sol.Commands.Frame.{confirm_dangerous-Quiet}
use on_re_sol.Commands.State.{
  kill_phrase, close_phrase, execute_state_kill_switch, execute_state_close,
}
use on_re_sol.Commands.Dispatch.{state_kill_switch, state_close, run}
use on_re_sol.Commands.Promises.{run-Quiet}

abbrev pub kill_question : InputSpec
kill_question = record {
  message =
      "Are you sure you want to enable the kill switch? (Type \"ENABLE KILL SWITCH\" to confirm):";
  default = undefined;
  validate = λ _. accept;
}

abbrev pub close_question : InputSpec
close_question = record {
  message = "Type 'CLOSE STATE' to confirm: (Type \"CLOSE STATE\" to confirm):";
  default = undefined;
  validate = λ _. accept;
}

-- Nothing leaves the program, or T holds.
abbrev pub Unless : Type 0 → World → World → Type 0
Unless T u v = ((v.sent ≡ u.sent) × (v.copied ≡ u.copied)) ⊎ T

Unless-first : {T : Type 0} (u v w : World) → Quiet u v → Unless T v w → Unless T u w
Unless-first u v w h (inl k) = inl (k.0 ∙ h.0, k.1 ∙ h.1)
Unless-first u v w h (inr t) = inr t

Unless-last : {T : Type 0} (u v w : World) → Unless T u v → Quiet v w → Unless T u w
Unless-last u v w (inl k) h = inl (h.0 ∙ k.0, h.1 ∙ k.1)
Unless-last u v w (inr t) h = inr t

pub Unless-Absorbs : {T : Type 0} → Absorbs Quiet (Unless T)
Unless-Absorbs = record { still = λ w. inl (refl, refl); first = Unless-first; last = Unless-last }

module _ (p : Platform) (cfg : NetworkConfig) (opts : Object) where
  pub executed-Unless :
      {T : Type 0} (params : List ParamDefinition) {handler : Object → M (Unit {0})}
      → ((values : Object) → Keeps (Unless T) (handler values))
      → Keeps (Unless T) (execute_command p cfg opts params handler)
  unfolding execute_command command_body
  executed-Unless params h =
      Keeps-catch Unless-Absorbs
        (Keeps-bind Unless-Absorbs (Keeps-if (is_json opts) (λ _. of_pure) λ _. of_show _) λ _.
          Keeps-bind Unless-Absorbs (of_show _) λ _.
            Keeps-bind Unless-Absorbs
              (prompt_for_params-Quiet p cfg (is_no_interactive opts) params opts) h)
        λ e. search calm

  abbrev Asked : InputSpec → String → Type 0
  Asked q phrase = (n : ℕ) × (p.ask_input n q ≡ some phrase)

  abbrev question : String → String → InputSpec
  question message phrase = record {
    message = message <> (" (Type \"" <> (phrase <> "\" to confirm):"));
    default = undefined;
    validate = λ _. accept;
  }

  confirm_dangerous-Ensures :
      (message phrase : String)
      → Ensures
          (λ b. b ≡ true → Asked (question message phrase) phrase)
          (confirm_dangerous_operation p message (some phrase))
  unfolding confirm_dangerous_operation input
  confirm_dangerous-Ensures message phrase =
      Ensures-answer
        λ n typed h. Ensures-pure λ same. (n, h ∙ ap some ((eq_iff typed phrase).0 same))

  -- A warning of two lines, the question, and a part that runs only after the right answer.
  guarded :
      (interactive : Bool) (a b : Report) (message phrase : String) (danger : M (Unit {0}))
      (cancelled : Report)
      → interactive ≡ true
      → Keeps (Unless (Asked (question message phrase) phrase)) (
          (if interactive
            then show a
              >> (show b >> (show (line "") >> confirm_dangerous_operation p message (some phrase)))
            else pure true)
          >>= λ confirmed. if confirmed then danger else show cancelled)
  guarded true a b message phrase danger cancelled h =
      Keeps-bind_of Unless-Absorbs
        (of_bind (of_show a) λ _.
          of_bind (of_show b) λ _. of_bind (of_show _) λ _. confirm_dangerous-Quiet p message _)
        (Ensures-bind _
          λ _. Ensures-bind _ λ _. Ensures-bind _ λ _. confirm_dangerous-Ensures message phrase)
        λ confirmed typed.
          Keeps-if confirmed (λ agreed. record { after = λ w. inr (typed agreed) })
            λ _. Keeps-weaken Unless-Absorbs (of_show _)
  guarded false a b message phrase danger cancelled h = cc

  module _ (interactive : (not (is_json opts) && not (is_dry_run opts)) ≡ true) where
    kill_switch-Keeps :
        Keeps (Unless (Asked kill_question kill_phrase)) (execute_state_kill_switch p cfg opts)
    unfolding execute_state_kill_switch
    kill_switch-Keeps = executed-Unless [] λ values. guarded _ _ _ _ _ _ _ interactive

    close-Keeps :
        Keeps (Unless (Asked close_question close_phrase)) (execute_state_close p cfg opts)
    unfolding execute_state_close
    close-Keeps = executed-Unless [] λ values. guarded _ _ _ _ _ _ _ interactive

-- The subcommand that enables the kill switch sends and copies nothing, unless the user types the
-- exact phrase ENABLE KILL SWITCH at its question.
pub run-kill_phrase :
    (p : Platform) (cfg : NetworkConfig) (opts : Object) (w : World)
    → (((run p cfg opts state_kill_switch w).1.sent ≡ w.sent)
        × ((run p cfg opts state_kill_switch w).1.copied ≡ w.copied))
      ⊎ ((n : ℕ) × (p.ask_input n kill_question ≡ some kill_phrase))
unfolding run
run-kill_phrase p cfg opts w = elim (Bool-cases (is_json opts || is_dry_run opts)) [
  | inl quiet ↦ inl (run-Quiet p cfg opts state_kill_switch w quiet)
  | inr other ↦ (kill_switch-Keeps p cfg opts (ground (arith, other))).after w
]

-- The subcommand that closes the state account sends and copies nothing, unless the user types the
-- exact phrase CLOSE STATE at its question.
pub run-close_phrase :
    (p : Platform) (cfg : NetworkConfig) (opts : Object) (w : World)
    → (((run p cfg opts state_close w).1.sent ≡ w.sent)
        × ((run p cfg opts state_close w).1.copied ≡ w.copied))
      ⊎ ((n : ℕ) × (p.ask_input n close_question ≡ some close_phrase))
unfolding run
run-close_phrase p cfg opts w = elim (Bool-cases (is_json opts || is_dry_run opts)) [
  | inl quiet ↦ inl (run-Quiet p cfg opts state_close w quiet)
  | inr other ↦ (close-Keeps p cfg opts (ground (arith, other))).after w
]
