-- ===== src/Transaction/Results.antt =====
-- scripts/cli/transaction/handler.ts: the results, and what was done.
use on_re_sol.Base.{
  String, length, Bool, true, false, [], ◌∷◌, ◌++◌, Option, none, some, ◌==◌, ◌≡◌, refl, sym, ◌∙◌,
  ap, arith, ◌⊎◌, inl, inr, Option-cases, if◌then◌else◌,
}
use on_re_sol.Js.{PublicKey}
use on_re_sol.Session.{
  Platform, World, Transaction, Sending, confirmed, failed, line, M, Outcome, ok, throw, pure, show,
  record_send, continue, ◌>>=◌, ◌>>◌, Keeps, Ensures, Ensures-bind, Ensures-pure, transaction_json,
  transaction_details, base58_text,
}
use on_re_sol.Session.Calm.{Quiet, of_show, of_option_lem, of_select, of_confirm}
use on_re_sol.Network.{NetworkConfig}
use on_re_sol.Helper.Addresses.{serialize_transaction}
use on_re_sol.Transaction.{
  TransactionResult, sent, copied, cancelled, TransactionOptions, copy_transaction, load_keypair,
  outcome_of, confirm_and_send, sign_and_send_transaction, choose_action, title_lines,
  handle_transaction,
}
use on_re_sol.Transaction.Consent.{
  copy_transaction-Unsent, load_file-Quiet, select_key_path-Quiet, title_lines-Quiet,
}

-- The worlds before and after a step fit the value that it ends in.
pub record Gives {A : Type 0} (R : World → A → World → Type 0) (m : M A) : Type 0 where
  pub result : (w : World) (a : A) → (m w).0 ≡ ok a → R w a (m w).1

module _ (p : Platform) (cfg : NetworkConfig) (tx : Transaction) where
  -- What each result says: a signature that the network confirmed the transaction, a text that it
  -- is the serialized transaction and nothing was sent, and a cancellation that nothing was copied
  -- and nothing was sent, or the sending failed.
  abbrev pub IsResult : World → TransactionResult → World → Type 0
  IsResult u (sent signature) v =
      (k : PublicKey) × (v.sent ≡ u.sent ++ ((tx, k) ∷ []))
      × (p.send tx k ≡ confirmed signature)
      × (v.copied ≡ u.copied)
  IsResult u (copied text) v = (v.sent ≡ u.sent) × (p.serialize tx ≡ some text)
  IsResult u cancelled v =
      (v.copied ≡ u.copied)
      × ((v.sent ≡ u.sent)
          ⊎ ((k : PublicKey) × (message : String) × (v.sent ≡ u.sent ++ ((tx, k) ∷ []))
              × (p.send tx k ≡ failed message)))

  after-Quiet :
      (u v : World) (a : TransactionResult) (w : World)
      → Quiet u v
      → IsResult v a w
      → IsResult u a w
  after-Quiet u v (sent s) w h (k, e, answered, same) =
      (k, e ∙ ap (λ l. l ++ ((tx, k) ∷ [])) h.0, answered, same ∙ h.1)
  after-Quiet u v (copied t) w h (same, made) = (same ∙ h.0, made)
  after-Quiet u v cancelled w h (same, inl none_sent) = (same ∙ h.1, inl (none_sent ∙ h.0))
  after-Quiet u v cancelled w h (same, inr (k, m, e, answered)) =
      (same ∙ h.1, inr (k, m, e ∙ ap (λ l. l ++ ((tx, k) ∷ [])) h.0, answered))

  continue-IsResult :
      {A : Type 0} (f : A → M TransactionResult) (u : World) (r : Outcome A × World)
      → ((a : A) → r.0 ≡ ok a → Gives IsResult (f a))
      → Quiet u r.1
      → (b : TransactionResult) → (continue f r).0 ≡ ok b
      → IsResult u b (continue f r).1
  continue-IsResult f u (ok a, v) h q b e = after-Quiet u v b (f a v).1 q ((h a refl).result v b e)
  continue-IsResult f u (throw s, v) h q b e = cc

  -- Quiet steps in front change nothing about the result.
  then-Gives :
      {A : Type 0} {m : M A} {f : A → M TransactionResult}
      → Keeps Quiet m
      → ((a : A) → Gives IsResult (f a))
      → Gives IsResult (m >>= f)
  unfolding ◌>>=◌
  then-Gives {m} {f} q h = record {
    result = λ w b e. continue-IsResult f w (m w) (λ a _. h a) (q.after w) b e;
  }

  Gives-if :
      (b : Bool) {m n : M TransactionResult}
      → Gives IsResult m
      → Gives IsResult n
      → Gives IsResult (if b then m else n)
  Gives-if true h k = h
  Gives-if false h k = k

  Gives-pure : {a : TransactionResult} → ((w : World) → IsResult w a w) → Gives IsResult (pure a)
  Gives-pure {a} h = record { result = λ w b e. go a b e w (h w) }
    where
      go :
          (a b : TransactionResult)
          → ◌≡◌ {A = Outcome TransactionResult} (ok a) (ok b)
          → (w : World) → IsResult w a w
          → IsResult w b w
      go a b e w given = let same : a ≡ b = cc in rw (sym same) given

  Gives-cancelled : Gives IsResult (pure cancelled)
  Gives-cancelled = Gives-pure λ w. (refl, inl refl)

  Gives-text : (text : String) → p.serialize tx ≡ some text → Gives IsResult (pure (copied text))
  Gives-text text made = Gives-pure λ w. (refl, made)

  sending :
      (k : PublicKey) (s : Sending)
      → p.send tx k ≡ s
      → Gives IsResult (record_send tx k >> outcome_of p cfg s)
  unfolding ◌>>=◌ record_send show
  sending k (confirmed signature) answered = record {
    result = λ w a e. let same : a ≡ sent signature = cc in rw same (k, refl, answered, refl);
  }
  sending k (failed message) answered = record {
    result =
        λ w a e. let same : a ≡ cancelled = cc in rw same (refl, inr (k, message, refl, answered));
  }

  confirm_and_send-Gives : (k : PublicKey) → Gives IsResult (confirm_and_send p cfg tx k)
  unfolding confirm_and_send
  confirm_and_send-Gives k = then-Gives (of_confirm p _) λ agreed.
      Gives-if agreed (sending k (p.send tx k) refl) (then-Gives (of_show _) λ _. Gives-cancelled)

  sign_and_send-Gives : Gives IsResult (sign_and_send_transaction p cfg none tx)
  unfolding sign_and_send_transaction load_keypair
  sign_and_send-Gives =
      then-Gives (select_key_path-Quiet p cfg tx)
        λ path. then-Gives (load_file-Quiet p cfg tx path (p.key_file path)) λ loaded. go loaded
    where
      go :
          (o : Option PublicKey)
          → Gives IsResult (elim o [ none ↦ pure cancelled | some k ↦ confirm_and_send p cfg tx k ])
      go none = Gives-cancelled
      go (some k) = confirm_and_send-Gives k

  copy_transaction-Ensures :
      (text : String) → Ensures (λ a. a ≡ copied text) (copy_transaction p cfg text)
  unfolding copy_transaction
  copy_transaction-Ensures text =
      Ensures-bind _
        λ _. Ensures-bind _ λ _. Ensures-bind _ λ _. Ensures-bind _ λ _. Ensures-pure refl

  copy_transaction-Gives :
      (text : String) → p.serialize tx ≡ some text → Gives IsResult (copy_transaction p cfg text)
  copy_transaction-Gives text made = record {
    result = λ w a e.
        rw ((copy_transaction-Ensures text).value w a e)
          ((copy_transaction-Unsent p cfg tx text).after w, made);
  }

  choose_action-Gives :
      (text : String) → p.serialize tx ≡ some text → Gives IsResult (choose_action p cfg tx text)
  unfolding choose_action
  choose_action-Gives text made = then-Gives (of_select p _) λ action.
      Gives-if (action == "copy") (copy_transaction-Gives text made) (
        Gives-if (action == "sign") sign_and_send-Gives (
          Gives-if (action == "cancel") (then-Gives (of_show _) λ _. Gives-cancelled)
            Gives-cancelled))

  serialized :
      (w : World) (text : String)
      → (serialize_transaction p tx w).0 ≡ ok text
      → p.serialize tx ≡ some text
  unfolding serialize_transaction
  serialized w text e = elim (Option-cases (p.serialize tx)) [
    | inl missing ↦ absurd (ground arith)
    | inr (t, made) ↦ ground arith
  ]

  serialize_transaction-Quiet : Keeps Quiet (serialize_transaction p tx)
  unfolding serialize_transaction
  serialize_transaction-Quiet = of_option_lem _ _

  -- A handled transaction ends in a result that says what was done. A signature: the transaction
  -- was sent once and the network confirmed it with that signature, and nothing was copied. A
  -- text: it is the serialized transaction, and nothing was sent. A cancellation: nothing was
  -- copied, and nothing was sent unless signing or sending this transaction failed.
  pub handle_transaction-IsResult :
      (options : TransactionOptions) (w : World) (result : TransactionResult)
      → (handle_transaction p cfg tx options w).0 ≡ ok result
      → IsResult w result (handle_transaction p cfg tx options w).1
  unfolding handle_transaction ◌>>=◌
  handle_transaction-IsResult options w result e =
      continue-IsResult _ w (serialize_transaction p tx w)
        (λ text made. rest text (serialized w text made)) (serialize_transaction-Quiet.after w)
        result e
    where
      rest :
          (text : String)
          → p.serialize tx ≡ some text
          → Gives IsResult (
              if options.json
              then show (
                  transaction_json options.title text tx.fee_payer tx.recent_blockhash
                    (length tx.instructions))
                >> pure (copied text)
              else (do
                title_lines p cfg options
                show (transaction_details options.title tx)
                if options.dry_run
                    then show (line "\n[Dry Run] Transaction generated but not executed.")
                      >> (show (line "\nBase58:")
                          >> (show (base58_text text) >> pure (copied text)))
                    else choose_action p cfg tx text))
      rest text made = Gives-if options.json (then-Gives (of_show _) λ _. Gives-text text made) (
          then-Gives (title_lines-Quiet p cfg options) λ _. then-Gives (of_show _) λ _.
            Gives-if options.dry_run
              (then-Gives (of_show _)
                λ _. then-Gives (of_show _) λ _. then-Gives (of_show _) λ _. Gives-text text made)
              (choose_action-Gives text made))
