-- ===== src/Session/Data.antt =====
-- Accounts, instructions and transactions as the scripts see them, the outside world that answers
-- the scripts, and the record of what they did.
use on_re_sol.Base.{ℕ, String, Bool, List, Option}
use on_re_sol.Js.{Number, PublicKey, Value, Object}

-- The fields of the state account that the scripts read.
pub record State : Type 0 where
  pub boss : PublicKey
  pub redemption_admin : Option PublicKey
  pub admins : List PublicKey

-- The fields of a redemption offer account that the scripts read. The counter is a u64.
pub record RedemptionOffer : Type 0 where
  pub request_counter : ℕ

pub record RedemptionRequest : Type 0 where
  pub offer : PublicKey
  pub redeemer : PublicKey
  pub request_id : ℕ
  pub amount : ℕ

-- The parts from which a program address is derived.
pub data Seed : Type 0 where
  text : String → Seed
  key_bytes : Value → Seed
  u64_le : Value → Seed

-- What is handed to Anchor for a method of the program: its name, the arguments, and the accounts
-- that are given by name. Or a call of the associated token program: the payer, the account, its
-- owner, the mint and the token program.
pub data Instruction : Type 0 where
  call : String → List Value → Object → Instruction
  create_token_account : Value → PublicKey → PublicKey → Value → Value → Instruction

pub record Transaction : Type 0 where
  pub instructions : List Instruction
  pub fee_payer : Value
  pub recent_blockhash : String

-- What a validation function of a prompt says.
pub data Check : Type 0 where
  accept : Check
  reject : String → Check

pub record InputSpec : Type 0 where
  pub message : String
  pub default : Value
  pub validate : String → Check

-- A number prompt gives `none` where it is left empty, and then it does not validate, since the code
-- never sets its option `required`.
pub record NumberSpec : Type 0 where
  pub message : String
  pub default : Value
  pub validate : Option Number → Check

pub record SelectSpec : Type 0 where
  pub message : String
  pub choices : List (String × String)
  pub default : Value

pub record ConfirmSpec : Type 0 where
  pub message : String
  pub default : Value

-- A key file: not there, not readable as a key, or the key pair, given by its public key.
pub data KeyFile : Type 0 where
  missing unreadable : KeyFile
  keypair : PublicKey → KeyFile

pub data Sending : Type 0 where
  confirmed : String → Sending
  failed : String → Sending

-- The libraries, the user, the chain and the files. `none` of a prompt is the user closing it, and
-- `none` of a library call is an exception. Prompts are numbered by those shown before.
pub record Platform : Type 0 where
  pub parse_key : String → Option PublicKey
  pub date_ms : String → Number
  pub iso_of_seconds : Value → Option String
  pub now_ms : ℕ
  pub text_of : Value → String
  pub ratio_text : Value → ℕ → String
  pub ratio_locale_text : Value → ℕ → String
  pub new_bn : Value → Option Value
  pub find_program_address : List Seed → PublicKey → PublicKey
  pub token_address : Value → PublicKey → Value → Option PublicKey
  pub redeemer_token_address : Value → Value → Value → Option PublicKey
  pub wallet : PublicKey
  pub wallet_source : String
  pub key_file : String → KeyFile
  pub home : String
  pub ask_input : ℕ → InputSpec → Option String
  pub ask_number : ℕ → NumberSpec → Option (Option Number)
  pub ask_select : ℕ → SelectSpec → Option String
  pub ask_confirm : ℕ → ConfirmSpec → Option Bool
  pub fetch_state : PublicKey → Option State
  pub fetch_redemption_offer : Value → Option RedemptionOffer
  pub fetch_redemption_request : PublicKey → Option RedemptionRequest
  pub all_redemption_requests : List (ℕ × String) → List RedemptionRequest
  pub account_exists : PublicKey → Option Bool
  pub latest_blockhash : Option String
  pub serialize : Transaction → Option String
  pub send : Transaction → PublicKey → Sending
  pub clipboard_works : String → Bool

-- What is shown on the terminal, by kind.
pub data Report : Type 0 where
  banner : String → Report
  line : String → Report
  summary : String → Object → Report
  transaction_json : String → String → Value → String → ℕ → Report
  transaction_details : String → Transaction → Report
  base58_text : String → Report
  redemption_offer : RedemptionOffer → String → String → Report
  redemption_request : RedemptionRequest → Value → Report
  redemption_requests : List (ℕ × RedemptionRequest) → Report
  state_details : State → Report
  signature_line : String → String → Report
  error_line : String → Report

-- What a run has done so far. `sent` holds each transaction that was handed over to be signed
-- and sent, with its signer; `exit_code` is set when the process ends early.
pub record World : Type 0 where
  pub asked : ℕ
  pub shown : List Report
  pub copied : List String
  pub sent : List (Transaction × PublicKey)
  pub exit_code : Option ℕ
