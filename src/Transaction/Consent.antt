-- ===== src/Transaction/Consent.antt =====
-- scripts/cli/transaction/handler.ts: the ways in which a transaction leaves the program.
use on_re_sol.Base.{
  ℕ, String, true, false, ◌||◌, [], ◌∷◌, ◌++◌, Option, none, some, ◌==◌, ◌≡◌, refl, ◌∙◌, ap, arith,
  inl, inr, ◌⊎◌,
}
use on_re_sol.Js.{PublicKey, bool}
use on_re_sol.Session.{
  Platform, World, Transaction, ConfirmSpec, KeyFile, missing, unreadable, keypair, Sending,
  confirmed, failed, line, M, pure, show, copy, record_send, confirm, ◌>>◌, Keeps, Absorbs,
  Keeps-if, Keeps-bind, Keeps-bind_last, Keeps-weaken, Keeps-bind_of, answer-Ensures, Ensures,
  Ensures-bind, Ensures-pure,
}
use on_re_sol.Session.Calm.{Quiet, of_pure, of_bind, of_option_lem, of_answer, of_show, of_select}
use on_re_sol.Network.{NetworkConfig}
use on_re_sol.Prompts.Calm.{calm}
use on_re_sol.Helper.Addresses.{serialize_transaction}
use on_re_sol.Transaction.{
  cancelled, TransactionOptions, send_question, copy_transaction, select_key_path, load_keypair,
  load_file, outcome_of, confirm_and_send, sign_and_send_transaction, choose_action, title_line,
  title_lines, next_steps, handle_transaction,
}

abbrev pub send_spec : ConfirmSpec
send_spec = record { message = send_question; default = bool false }

module _ (p : Platform) (cfg : NetworkConfig) where
  pub outcome_of-Quiet : (s : Sending) → Keeps Quiet (outcome_of p cfg s)
  outcome_of-Quiet (confirmed signature) = search calm
  outcome_of-Quiet (failed message) = search calm

  pub title_lines-Quiet : (options : TransactionOptions) → Keeps Quiet (title_lines p cfg options)
  title_lines-Quiet options = go options.description
    where
      go :
          (d : Option String)
          → Keeps Quiet (elim d [
            | none ↦ show (title_line p cfg options.title) >> show (line "")
            | some t ↦ show (title_line p cfg options.title) >> (show (line t) >> show (line ""))
          ])
      go none = search calm
      go (some t) = search calm

  -- In the JSON mode and in a dry run nothing is sent and nothing is copied.
  pub handle_transaction-Quiet :
      (tx : Transaction) (options : TransactionOptions)
      → (options.json || options.dry_run) ≡ true
      → Keeps Quiet (handle_transaction p cfg tx options)
  unfolding handle_transaction serialize_transaction
  handle_transaction-Quiet tx options h = of_bind (of_option_lem _ (p.serialize tx)) λ text.
      Keeps-if options.json (λ _. search calm)
        λ not_json. of_bind (title_lines-Quiet options) λ _.
          of_bind (of_show _)
            λ _. Keeps-if options.dry_run (λ _. search calm) λ not_dry. absurd (ground arith)

-- Nothing is sent.
abbrev Unsent : World → World → Type 0
Unsent u v = v.sent ≡ u.sent

unsent : {A : Type 0} {m : M A} → Keeps Quiet m → Keeps Unsent m
unsent h = record { after = λ w. (h.after w).0 }

Unsent-Absorbs : Absorbs Unsent Unsent
Unsent-Absorbs = record { still = λ w. refl; first = λ u v w h k. k ∙ h; last = λ u v w h k. k ∙ h }

copy-Unsent : (s : String) → Keeps Unsent (copy s)
unfolding copy
copy-Unsent s = record { after = λ w. refl }

-- Either nothing is sent, or just the given transaction is, with the key of a file, after the user
-- has agreed to the question whether to send.
abbrev pub Consented : Platform → Transaction → World → World → Type 0
Consented p tx u v =
    (v.sent ≡ u.sent)
    ⊎ ((k : PublicKey) × (path : String) × (n : ℕ) × (v.sent ≡ u.sent ++ ((tx, k) ∷ []))
        × (p.key_file path ≡ keypair k)
        × (p.ask_confirm n send_spec ≡ some true))

Consented-first :
    (p : Platform) (tx : Transaction) (u v w : World)
    → Unsent u v
    → Consented p tx v w
    → Consented p tx u w
Consented-first p tx u v w h (inl same) = inl (same ∙ h)
Consented-first p tx u v w h (inr (k, path, n, e, file, agreed)) =
    inr (k, path, n, e ∙ ap (λ s. s ++ ((tx, k) ∷ [])) h, file, agreed)

Consented-last :
    (p : Platform) (tx : Transaction) (u v w : World)
    → Consented p tx u v
    → Unsent v w
    → Consented p tx u w
Consented-last p tx u v w (inl same) h = inl (h ∙ same)
Consented-last p tx u v w (inr (k, path, n, e, file, agreed)) h =
    inr (k, path, n, h ∙ e, file, agreed)

pub Consented-Absorbs : (p : Platform) (tx : Transaction) → Absorbs Unsent (Consented p tx)
Consented-Absorbs p tx = record {
  still = λ w. inl refl;
  first = Consented-first p tx;
  last = Consented-last p tx;
}

module _ (p : Platform) (cfg : NetworkConfig) (tx : Transaction) where
  Consented-of_Unsent : {A : Type 0} {m : M A} → Keeps Unsent m → Keeps (Consented p tx) m
  Consented-of_Unsent h = Keeps-weaken (Consented-Absorbs p tx) h

  record_send-Consented :
      (k : PublicKey) (path : String) (n : ℕ)
      → p.key_file path ≡ keypair k
      → p.ask_confirm n send_spec ≡ some true
      → Keeps (Consented p tx) (record_send tx k)
  unfolding record_send
  record_send-Consented k path n file agreed = record {
    after = λ w. inr (k, path, n, refl, file, agreed);
  }

  confirm_and_send-Consented :
      (k : PublicKey) (path : String)
      → p.key_file path ≡ keypair k
      → Keeps (Consented p tx) (confirm_and_send p cfg tx k)
  unfolding confirm_and_send confirm
  confirm_and_send-Consented k path file =
      Keeps-bind_of (Consented-Absorbs p tx) (unsent (of_answer _)) (answer-Ensures _)
        λ agreed (n, given).
          Keeps-if agreed
            (λ accepted.
              Keeps-bind_last (Consented-Absorbs p tx)
                (record_send-Consented k path n file (given ∙ ap some accepted))
                λ _. unsent (outcome_of-Quiet p cfg (p.send tx k)))
            λ _. Consented-of_Unsent (unsent (search calm))

  load_file-Ensures :
      (path : String) (f : KeyFile)
      → Ensures (λ o. (k : PublicKey) → o ≡ some k → f ≡ keypair k) (load_file p cfg path f)
  load_file-Ensures path missing = Ensures-bind _ λ _. Ensures-pure λ k e. cc
  load_file-Ensures path unreadable = Ensures-bind _ λ _. Ensures-pure λ k e. cc
  load_file-Ensures path (keypair j) = Ensures-bind _ λ _. Ensures-pure λ k e. cc

  pub load_file-Quiet : (path : String) (f : KeyFile) → Keeps Quiet (load_file p cfg path f)
  load_file-Quiet path missing = search calm
  load_file-Quiet path unreadable = search calm
  load_file-Quiet path (keypair j) = search calm

  pub select_key_path-Quiet : Keeps Quiet (select_key_path p cfg)
  unfolding select_key_path
  select_key_path-Quiet =
      of_bind (of_select p _) λ name. Keeps-if (name == "custom") (λ _. search calm) (λ _. of_pure)

  sign_and_send-Consented : Keeps (Consented p tx) (sign_and_send_transaction p cfg none tx)
  unfolding sign_and_send_transaction load_keypair
  sign_and_send-Consented =
      Keeps-bind (Consented-Absorbs p tx) (unsent select_key_path-Quiet) λ path.
        Keeps-bind_of (Consented-Absorbs p tx) (unsent (load_file-Quiet path (p.key_file path)))
          (load_file-Ensures path (p.key_file path)) λ loaded file. go path loaded file
    where
      go :
          (path : String) (o : Option PublicKey)
          → ((k : PublicKey) → o ≡ some k → p.key_file path ≡ keypair k)
          → Keeps
              (Consented p tx)
              (elim o [ none ↦ pure cancelled | some k ↦ confirm_and_send p cfg tx k ])
      go path none file = Consented-of_Unsent (unsent of_pure)
      go path (some k) file = confirm_and_send-Consented k path (file k refl)

  next_steps-Quiet : Keeps Quiet (next_steps p cfg)
  next_steps-Quiet =
      of_bind (of_show _)
        λ _. of_bind (of_show _) λ _. of_bind (of_show _) λ _. of_bind (of_show _) λ _. of_show _

  pub copy_transaction-Unsent : (s : String) → Keeps Unsent (copy_transaction p cfg s)
  unfolding copy_transaction
  copy_transaction-Unsent s =
      Keeps-bind Unsent-Absorbs
        (Keeps-if (p.clipboard_works s)
          (λ _. Keeps-bind Unsent-Absorbs (copy-Unsent s) λ _. unsent (of_show _))
          λ _. unsent (of_show _))
        λ _.
          unsent (
            of_bind (of_show _) λ _. of_bind (of_show _) λ _. of_bind next_steps-Quiet λ _. of_pure)

  -- Handling a transaction sends nothing, or sends that transaction once, signed with the key of a
  -- file, after the user has agreed to the question whether to send it.
  pub handle_transaction-Consented :
      (options : TransactionOptions) → Keeps (Consented p tx) (handle_transaction p cfg tx options)
  unfolding handle_transaction serialize_transaction choose_action
  handle_transaction-Consented options =
      Keeps-bind (Consented-Absorbs p tx) (unsent (of_option_lem _ (p.serialize tx))) λ text.
        Keeps-if options.json (λ _. quiet (search calm))
          λ _. Keeps-bind (Consented-Absorbs p tx) (unsent (title_lines-Quiet p cfg options)) λ _.
            Keeps-bind (Consented-Absorbs p tx) (unsent (of_show _)) λ _.
              Keeps-if options.dry_run (λ _. quiet (search calm))
                λ _. Keeps-bind (Consented-Absorbs p tx) (unsent (of_select p _)) λ action.
                  Keeps-if (action == "copy")
                    (λ _. Consented-of_Unsent (copy_transaction-Unsent text))
                    λ _.
                      Keeps-if (action == "sign") (λ _. sign_and_send-Consented)
                        λ _.
                          Keeps-if (action == "cancel") (λ _. quiet (search calm))
                            λ _. quiet of_pure
    where
      quiet : {A : Type 0} {m : M A} → Keeps Quiet m → Keeps (Consented p tx) m
      quiet h = Consented-of_Unsent (unsent h)
