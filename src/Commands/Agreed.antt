-- ===== src/Commands/Agreed.antt =====
-- The commands that ask whether to continue, scripts/cli/implementations: init/init-program,
-- mint-authority/mint-authority-to-program and state/state-clear-admins.
use on_re_sol.Base.{
  ℕ, String, ◌<>◌, Bool, true, false, not, ◌&&◌, ◌||◌, none, some, pos, leb, ◌≡◌, ◌∙◌, ap, ◌⊎◌, inl,
  inr, arith, Bool-cases, Option-cases, if◌then◌else◌,
}
use on_re_sol.Js.{Object, bool, num, int}
use on_re_sol.Session.{
  Platform, State, World, ConfirmSpec, Report, M, show, pure, confirm, ◌>>=◌, Ensures, Keeps,
  Keeps-bind, Keeps-bind_of, Keeps-if, Keeps-weaken, answer-Ensures, Ensures-weaken, Ensures-bind,
}
use on_re_sol.Session.Calm.{Quiet, of_pure, of_bind, of_show, of_option_lem}
use on_re_sol.Network.{NetworkConfig}
use on_re_sol.Helper.Addresses.{get_state, state_pda}
use on_re_sol.Helper.Calm.{get_state-Quiet}
use on_re_sol.Commands.Wrapper.{is_json, is_dry_run, confirm_dangerous_operation}
use on_re_sol.Commands.Frame.{confirm_dangerous-Quiet}
use on_re_sol.Commands.State.{admin_count, execute_state_clear_admins}
use on_re_sol.Commands.Setup.{execute_init_program, execute_mint_authority_to_program}
use on_re_sol.Commands.Dispatch.{state_clear_admins, init_program, mint_authority_to_program, run}
use on_re_sol.Commands.Confirmed.{Unless, Unless-Absorbs, executed-Unless}
use on_re_sol.Commands.Promises.{run-Quiet}

abbrev pub yes_or_no : String → ConfirmSpec
yes_or_no message = record { message = message; default = bool false }

abbrev pub init_question : String
init_question = "This will initialize the program state. Continue?"

abbrev pub transfer_question : String
transfer_question =
    "This will generate a transaction to transfer mint authority to the program. Continue?"

abbrev pub clear_question : Platform → ℕ → String
clear_question p n = "Remove all " <> (p.text_of (num (int (pos n))) <> " admin(s)?")

-- The user has agreed to a question.
abbrev pub Agreed : Platform → String → Type 0
Agreed p message = (n : ℕ) × (p.ask_confirm n (yes_or_no message) ≡ some true)

-- The user has agreed to the question with the number of entries in the list of admins, its empty
-- slots included, that are not the key of the wallet.
abbrev pub AgreedToClear : Platform → NetworkConfig → Type 0
AgreedToClear p cfg =
    (state : State) × (p.fetch_state (state_pda p cfg) ≡ some state)
    × Agreed p (clear_question p (admin_count p.wallet state.admins))

module _ (p : Platform) (cfg : NetworkConfig) (opts : Object) where
  confirm_dangerous-Agreed :
      (message : String)
      → Ensures (λ b. b ≡ true → Agreed p message) (confirm_dangerous_operation p message none)
  unfolding confirm_dangerous_operation confirm
  confirm_dangerous-Agreed message =
      Ensures-weaken (answer-Ensures _) λ b given yes. (given.0, given.1 ∙ ap some yes)

  -- The question, after steps that neither send nor copy, and a part that runs only after a yes.
  asked-Unless :
      {T : Type 0} (asks : Bool) (message : String) {ask : M Bool} (danger : M (Unit {0}))
      (cancelled : Report)
      → (Agreed p message → T)
      → Keeps Quiet ask
      → Ensures (λ b. b ≡ true → Agreed p message) ask
      → asks ≡ true
      → Keeps (Unless T) (
          (if asks then ask else pure true) >>= λ confirmed.
          if confirmed then danger else show cancelled)
  asked-Unless true message danger cancelled enough quiet ensures h =
      Keeps-bind_of Unless-Absorbs quiet ensures λ confirmed agreed.
        Keeps-if confirmed (λ yes. record { after = λ w. inr (enough (agreed yes)) })
          λ _. Keeps-weaken Unless-Absorbs (of_show _)
  asked-Unless false message danger cancelled enough quiet ensures h = cc

  simply_asked :
      (asks : Bool) (message : String) (danger : M (Unit {0})) (cancelled : Report)
      → asks ≡ true
      → Keeps (Unless (Agreed p message)) (
          (if asks then confirm_dangerous_operation p message none else pure true) >>= λ confirmed.
          if confirmed then danger else show cancelled)
  simply_asked asks message danger cancelled h =
      asked-Unless asks message danger cancelled (λ agreed. agreed)
        (confirm_dangerous-Quiet p message none) (confirm_dangerous-Agreed message) h

  init_program-Unless :
      not (is_dry_run opts) ≡ true
      → Keeps (Unless (Agreed p init_question)) (execute_init_program p cfg opts)
  unfolding execute_init_program
  init_program-Unless asks = executed-Unless p cfg opts _ λ values.
      Keeps-bind Unless-Absorbs
        (Keeps-if (is_json opts) (λ _. of_pure)
          λ _. of_bind (of_show _) λ _. of_bind (of_show _) λ _.
            of_bind (of_option_lem _ _) λ shown.
              of_bind (of_show _) λ _. of_bind (of_show _) λ _. of_bind (of_show _) λ _. of_show _)
        λ _. simply_asked _ _ _ _ asks

  to_program-Unless :
      not (is_dry_run opts) ≡ true
      → Keeps (Unless (Agreed p transfer_question)) (execute_mint_authority_to_program p cfg opts)
  unfolding execute_mint_authority_to_program
  to_program-Unless asks = executed-Unless p cfg opts _ λ values.
      Keeps-bind Unless-Absorbs
        (Keeps-if (is_json opts) (λ _. of_pure)
          λ _. of_bind (of_show _) λ _.
            of_bind (of_option_lem _ _)
              λ shown. of_bind (of_show _) λ _. of_bind (of_show _) λ _. of_show _)
        λ _. simply_asked _ _ _ _ asks

  get_state-fetched :
      Ensures (λ state. p.fetch_state (state_pda p cfg) ≡ some state) (get_state p cfg)
  unfolding get_state
  get_state-fetched = record {
    value = λ w a e. elim (Option-cases (p.fetch_state (state_pda p cfg))) [
      | inl missing ↦ absurd (ground arith)
      | inr (s, found) ↦ ground arith
    ];
  }

  clear_admins-Unless :
      (not (is_json opts) && not (is_dry_run opts)) ≡ true
      → Keeps (Unless (AgreedToClear p cfg)) (execute_state_clear_admins p cfg opts)
  unfolding execute_state_clear_admins
  clear_admins-Unless asks = executed-Unless p cfg opts _ λ values.
      Keeps-bind_of Unless-Absorbs (get_state-Quiet p cfg) get_state-fetched λ state fetched.
        Keeps-if (leb (admin_count p.wallet state.admins) 0 && not (is_json opts))
          (λ _. Keeps-weaken Unless-Absorbs (of_show _))
          λ _.
            asked-Unless _ _ _ _ (λ agreed. (state, fetched, agreed))
              (of_bind (of_show _) λ _. confirm_dangerous-Quiet p _ none)
              (Ensures-bind _ λ _. confirm_dangerous-Agreed _) asks

-- The subcommand that clears the admins sends and copies nothing, unless the user agrees to its
-- question, in which the number is that of the entries of the fetched list of admins that are not the
-- key of the wallet, empty slots counted.
pub run-clear_admins :
    (p : Platform) (cfg : NetworkConfig) (opts : Object) (w : World)
    → (((run p cfg opts state_clear_admins w).1.sent ≡ w.sent)
        × ((run p cfg opts state_clear_admins w).1.copied ≡ w.copied))
      ⊎ AgreedToClear p cfg
unfolding run
run-clear_admins p cfg opts w = elim (Bool-cases (is_json opts || is_dry_run opts)) [
  | inl quiet ↦ inl (run-Quiet p cfg opts state_clear_admins w quiet)
  | inr other ↦ (clear_admins-Unless p cfg opts (ground (arith, other))).after w
]

-- The subcommand that initializes the program sends and copies nothing, unless the user agrees to
-- its question.
pub run-init_program :
    (p : Platform) (cfg : NetworkConfig) (opts : Object) (w : World)
    → (((run p cfg opts init_program w).1.sent ≡ w.sent)
        × ((run p cfg opts init_program w).1.copied ≡ w.copied))
      ⊎ Agreed p init_question
unfolding run
run-init_program p cfg opts w = elim (Bool-cases (is_dry_run opts)) [
  | inl dry ↦ inl (run-Quiet p cfg opts init_program w (ground (arith, dry)))
  | inr other ↦ (init_program-Unless p cfg opts (ground (arith, other))).after w
]

-- The subcommand that hands the mint authority to the program sends and copies nothing, unless the
-- user agrees to its question.
pub run-mint_authority_to_program :
    (p : Platform) (cfg : NetworkConfig) (opts : Object) (w : World)
    → (((run p cfg opts mint_authority_to_program w).1.sent ≡ w.sent)
        × ((run p cfg opts mint_authority_to_program w).1.copied ≡ w.copied))
      ⊎ Agreed p transfer_question
unfolding run
run-mint_authority_to_program p cfg opts w = elim (Bool-cases (is_dry_run opts)) [
  | inl dry ↦ inl (run-Quiet p cfg opts mint_authority_to_program w (ground (arith, dry)))
  | inr other ↦ (to_program-Unless p cfg opts (ground (arith, other))).after w
]
