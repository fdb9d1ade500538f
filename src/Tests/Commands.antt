-- ===== src/Tests/Commands.antt =====
-- The commands and the handling of transactions at concrete inputs.
use on_re_sol.Base.{
  ℕ, String, true, false, ◌||◌, List, [], ◌∷◌, ◌++◌, none, some, length, insert, lookup, ◌≡◌, refl,
  arith, ◌⊎◌, inl,
}
use on_re_sol.Js.{PublicKey, key, Object, get, bool, pubkey, truthy}
use on_re_sol.Session.{
  State, Instruction, call, Transaction, Platform, keypair, RedemptionRequest, ok, show, catch,
  ◌>>=◌, answer, select, input, confirm, record_send,
}
use on_re_sol.Helper.Addresses.{
  prepare_transaction, serialize_transaction, get_state, get_boss, state_pda,
}
use on_re_sol.Helper.Authority.{build_set_kill_switch_ix}
use on_re_sol.Tokens.{token_program_id}
use on_re_sol.Helper.Offer.{build_create_permissionless_token_accounts_ixs}
use on_re_sol.Helper.Offer.Accounts.{
  creations, missing, build_create_permissionless_token_accounts_ixs_lem,
}
use on_re_sol.Transaction.{
  sent, TransactionOptions, handle_transaction, choose_action, sign_and_send_transaction,
  select_key_path, load_keypair, confirm_and_send,
}
use on_re_sol.Transaction.Consent.{send_spec}
use on_re_sol.Transaction.Results.{IsResult, handle_transaction-IsResult}
use on_re_sol.Prompts.All.{prompt_for_params, prompt_from}
use on_re_sol.Commands.Wrapper.{
  command_body, execute_command, build_and_handle_transaction, payer_of,
  confirm_dangerous_operation,
}
use on_re_sol.Commands.State.{kill_phrase, close_phrase, execute_state_kill_switch}
use on_re_sol.Commands.Dispatch.{
  state_get, state_kill_switch, state_close, state_clear_admins, init_program,
  mint_authority_to_program, run,
}
use on_re_sol.Commands.Promises.{run-Quiet, run-Consented}
use on_re_sol.Commands.Confirmed.{kill_question, close_question, run-kill_phrase, run-close_phrase}
use on_re_sol.Commands.Interactive.{run-interactive}
use on_re_sol.Commands.Agreed.{
  Agreed, AgreedToClear, init_question, transfer_question, run-clear_admins, run-init_program,
  run-mint_authority_to_program,
}
use on_re_sol.Commands.Redemption.{execute_redemption_fulfill}
use on_re_sol.Commands.Redemption.Admin.{HasNoAdmin, execute_redemption_fulfill-exit_code}
use on_re_sol.Tests.Fixtures.{cfg, boss_key, p, w}

abbrev json_options : Object
json_options = ("json", bool true) ∷ []

abbrev plain : Object
plain = []

abbrev kill_switch_ixs : List Instruction
kill_switch_ixs = call "pause" [] [] ∷ []

abbrev tx : Transaction
tx = record {
  instructions = kill_switch_ixs;
  fee_payer = pubkey boss_key;
  recent_blockhash = "Hash";
}

asks_json : (truthy (get json_options "json") || truthy (get json_options "dryRun")) ≡ true
unfolding get lookup
asks_json = refl

run-Quiet_example :
    ((run p cfg json_options state_kill_switch w).1.sent ≡ [])
    × ((run p cfg json_options state_kill_switch w).1.copied ≡ [])
run-Quiet_example = run-Quiet p cfg json_options state_kill_switch w asks_json

run-Consented_example :
    ((run p cfg plain state_kill_switch w).1.sent ≡ [])
    ⊎ ((t : Transaction) × (k : PublicKey) × (path : String) × (n : ℕ) × ((run p cfg plain
            state_kill_switch w).1.sent
          ≡ [] ++ ((t, k) ∷ []))
        × (p.key_file path ≡ keypair k)
        × (p.ask_confirm n send_spec ≡ some true))
run-Consented_example = run-Consented p cfg plain state_kill_switch w

-- With these answers the kill switch is typed in, signed for and sent.
kill_switch_sent : length ((run p cfg plain state_kill_switch w).1.sent) ≡ 1
unfolding run execute_state_kill_switch execute_command command_body catch get lookup ◌>>=◌ show
    prompt_for_params prompt_from confirm_dangerous_operation input answer
    build_and_handle_transaction payer_of get_boss get_state build_set_kill_switch_ix
    prepare_transaction handle_transaction serialize_transaction choose_action select
    sign_and_send_transaction select_key_path load_keypair confirm_and_send confirm record_send
kill_switch_sent = refl

run-kill_phrase_example :
    (((run p cfg plain state_kill_switch w).1.sent ≡ [])
      × ((run p cfg plain state_kill_switch w).1.copied ≡ []))
    ⊎ ((n : ℕ) × (p.ask_input n kill_question ≡ some kill_phrase))
run-kill_phrase_example = run-kill_phrase p cfg plain w

run-close_phrase_example :
    (((run p cfg plain state_close w).1.sent ≡ [])
      × ((run p cfg plain state_close w).1.copied ≡ []))
    ⊎ ((n : ℕ) × (p.ask_input n close_question ≡ some close_phrase))
run-close_phrase_example = run-close_phrase p cfg plain w

abbrev send_options : TransactionOptions
send_options = record { title = "Test"; description = none; dry_run = false; json = false }

handled : (handle_transaction p cfg tx send_options w).0 ≡ ok (sent "Signature")
unfolding ◌>>=◌ show handle_transaction serialize_transaction choose_action select answer
    sign_and_send_transaction select_key_path load_keypair confirm_and_send confirm record_send
handled = refl

handle_transaction-IsResult_example :
    IsResult p cfg tx w (sent "Signature") (handle_transaction p cfg tx send_options w).1
handle_transaction-IsResult_example =
    handle_transaction-IsResult p cfg tx send_options w (sent "Signature") handled

abbrev requests : List RedemptionRequest
requests =
    record { offer = key "Offer"; redeemer = key "A"; request_id = 2; amount = 5 }
    ∷ record { offer = key "Offer"; redeemer = key "A"; request_id = 1; amount = 6 }
    ∷ []

abbrev listing : Platform
listing = record p { all_redemption_requests = λ filters. requests }

abbrev list_params : Object
list_params =
    ("tokenIn", pubkey cfg.mints.onyc)
    ∷ ("tokenOut", pubkey cfg.mints.usdc)
    ∷ ("redeemer", pubkey (key "A"))
    ∷ []

no_admins : (state : State) → p.fetch_state (state_pda p cfg) ≡ some state → HasNoAdmin state
no_admins state h = inl (ground arith)

execute_redemption_fulfill-exit_code_example :
    (execute_redemption_fulfill p cfg plain w).1.exit_code ≡ some 1
execute_redemption_fulfill-exit_code_example =
    execute_redemption_fulfill-exit_code p cfg plain no_admins w

build_create_permissionless_token_accounts_ixs_lem_example :
    build_create_permissionless_token_accounts_ixs p cfg
      (pubkey cfg.mints.usdc)
      (pubkey cfg.mints.onyc)
      (pubkey token_program_id)
      (pubkey token_program_id)
      (pubkey boss_key)
      w
    ≡ (
      ok (
          creations p cfg (pubkey boss_key) (
            missing (
              (false, (pubkey cfg.mints.usdc, pubkey token_program_id, key "Account"))
              ∷ (false, (pubkey cfg.mints.onyc, pubkey token_program_id, key "Account"))
              ∷ []))),
      w,
    )
build_create_permissionless_token_accounts_ixs_lem_example =
    build_create_permissionless_token_accounts_ixs_lem p cfg (pubkey cfg.mints.usdc)
      (pubkey cfg.mints.onyc) (pubkey token_program_id) (pubkey token_program_id) (pubkey boss_key)
      (key "Account") (key "Account") false false w refl refl refl refl

run-clear_admins_example :
    (((run p cfg plain state_clear_admins w).1.sent ≡ [])
      × ((run p cfg plain state_clear_admins w).1.copied ≡ []))
    ⊎ AgreedToClear p cfg
run-clear_admins_example = run-clear_admins p cfg plain w

run-init_program_example :
    (((run p cfg plain init_program w).1.sent ≡ [])
      × ((run p cfg plain init_program w).1.copied ≡ []))
    ⊎ Agreed p init_question
run-init_program_example = run-init_program p cfg plain w

run-mint_authority_to_program_example :
    (((run p cfg plain mint_authority_to_program w).1.sent ≡ [])
      × ((run p cfg plain mint_authority_to_program w).1.copied ≡ []))
    ⊎ Agreed p transfer_question
run-mint_authority_to_program_example = run-mint_authority_to_program p cfg plain w

run-interactive_example :
    run p cfg (insert "interactive" (bool false) plain) state_get ≡ run p cfg plain state_get
run-interactive_example = run-interactive p cfg plain (bool false) state_get
