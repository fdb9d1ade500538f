-- ===== src/Transaction.antt =====
-- scripts/cli/transaction/handler.ts
pub mod Consent
pub mod Results
use on_re_sol.Base.{
  String, ◌<>◌, Bool, true, false, List, [], ◌∷◌, Option, none, some, ◌==◌, length, if◌then◌else◌,
}
use on_re_sol.Js.{PublicKey, base58, Value, undefined, bool, str, replace_tilde}
use on_re_sol.Session.{
  Platform, Transaction, Report, line, transaction_json, transaction_details, base58_text,
  signature_line, error_line, KeyFile, missing, unreadable, keypair, Sending, confirmed, failed,
  Check, accept, M, pure, show, copy, record_send, input, select, confirm, ◌>>=◌, ◌>>◌,
}
use text.Mathlib.Text.{starts_with}
use on_re_sol.Network.{NetworkConfig}
use on_re_sol.Helper.Addresses.{serialize_transaction}

pub data TransactionResult : Type 0 where
  sent : String → TransactionResult
  copied : String → TransactionResult
  cancelled : TransactionResult

pub record TransactionOptions : Type 0 where
  pub title : String
  pub description : Option String
  pub dry_run : Bool
  pub json : Bool

-- `helper.walletKeypair`: the class `ScriptHelper` has no such member, so it is never set.
abbrev pub wallet_keypair : Option PublicKey
wallet_keypair = none

abbrev pub actions : List (String × String)
actions =
    ("Copy Base58 for Squad multisig", "copy")
    ∷ ("Sign locally and send to chain", "sign")
    ∷ ("Cancel", "cancel")
    ∷ []

abbrev pub send_question : String
send_question = "Send transaction to chain?"

module _ (p : Platform) (cfg : NetworkConfig) where
  abbrev pub next_steps : M (Unit {0})
  next_steps =
      show (line "\nNext steps:")
      >> (show (line "  1. Go to your Squad multisig at https://v4.squads.so")
          >> (show (line "  2. Create a new transaction using the transaction builder")
              >> (show (line "  3. Paste this Base58 string")
                  >> show (line "  4. Get required signatures and execute"))))

  unfoldable pub copy_transaction : String → M TransactionResult
  copy_transaction text = do
    if p.clipboard_works text
        then copy text >> show (line "\nTransaction copied to clipboard!")
        else show (line "\nCould not copy to clipboard automatically.")
    show (line "\nBase58 Transaction:")
    show (base58_text text)
    next_steps
    pure (copied text)

  -- The path of the key file that the user selects.
  unfoldable pub select_key_path : M String
  select_key_path = do
    wallet_name ← select p (record {
      message = "Select wallet to sign with:";
      choices =
          ("Default (~/.config/solana/id.json)", "id") ∷ ("Custom wallet file", "custom") ∷ [];
      default = undefined;
    })
    if wallet_name == "custom"
        then (do
          custom_path ← input p (record {
            message = "Enter path to keypair file:";
            default = str "~/.config/solana/id.json";
            validate = λ _. accept;
          })
          pure (replace_tilde p.home custom_path))
        else pure (p.home <> "/.config/solana/id.json")

  abbrev pub load_file : String → KeyFile → M (Option PublicKey)
  load_file path missing = show (line ("\nKeypair file not found: " <> path)) >> pure none
  load_file path unreadable = show (line "\nFailed to load keypair:") >> pure none
  load_file path (keypair k) = show (line ("\nSigning with: " <> base58 k)) >> pure (some k)

  -- The key pair to sign with, if there is one.
  unfoldable pub load_keypair : String → M (Option PublicKey)
  load_keypair path = load_file path (p.key_file path)

  -- The page of the transaction, on the cluster of the network.
  abbrev pub explorer_url : String → String
  explorer_url signature =
      "https://solscan.io/tx/"
      <> (signature <> (if starts_with cfg.name "devnet" then "?cluster=devnet" else ""))

  abbrev pub outcome_of : Sending → M TransactionResult
  outcome_of (confirmed signature) =
      show (line "Transaction confirmed!")
      >> (show (signature_line signature (explorer_url signature)) >> pure (sent signature))
  outcome_of (failed message) =
      show (line "Transaction failed") >> (show (error_line message) >> pure cancelled)

  -- The last steps, with a key pair at hand: the question, the signature and the network.
  unfoldable pub confirm_and_send : Transaction → PublicKey → M TransactionResult
  confirm_and_send tx k = do
    agreed ← confirm p (record { message = send_question; default = bool false })
    if agreed
        then record_send tx k >> outcome_of (p.send tx k)
        else show (line "\nTransaction cancelled.") >> pure cancelled

  unfoldable pub sign_and_send_transaction : Option PublicKey → Transaction → M TransactionResult
  sign_and_send_transaction (some k) tx =
      show (line ("\nUsing loaded wallet: " <> base58 k)) >> confirm_and_send tx k
  sign_and_send_transaction none tx = do
    path ← select_key_path
    loaded ← load_keypair path
    elim loaded [ none ↦ pure cancelled | some k ↦ confirm_and_send tx k ]

  -- The interactive part: what to do with the transaction.
  unfoldable pub choose_action : Transaction → String → M TransactionResult
  choose_action tx text = do
    action ←
        select p (record {
          message = "What would you like to do?";
          choices = actions;
          default = undefined;
        })
    if action == "copy"
        then copy_transaction text
        else if action == "sign"
        then sign_and_send_transaction wallet_keypair tx
        else if action == "cancel"
        then show (line "\nTransaction cancelled.") >> pure cancelled
        else pure cancelled

  abbrev pub title_line : String → Report
  title_line title = line ("\n=== " <> (title <> " ==="))

  abbrev pub title_lines : TransactionOptions → M (Unit {0})
  title_lines options = elim (options.description) [
    | none ↦ show (title_line options.title) >> show (line "")
    | some d ↦ show (title_line options.title) >> (show (line d) >> show (line ""))
  ]

  unfoldable pub handle_transaction : Transaction → TransactionOptions → M TransactionResult
  handle_transaction tx options = do
    text ← serialize_transaction p tx
    if options.json
        then show (
            transaction_json options.title text tx.fee_payer tx.recent_blockhash
              (length tx.instructions))
          >> pure (copied text)
        else (do
          title_lines options
          show (transaction_details options.title tx)
          if options.dry_run
              then show (line "\n[Dry Run] Transaction generated but not executed.")
                >> (show (line "\nBase58:") >> (show (base58_text text) >> pure (copied text)))
              else choose_action tx text)
