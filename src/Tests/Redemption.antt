-- ===== src/Tests/Redemption.antt =====
-- Redemption requests and token calls at concrete inputs.
use on_re_sol.Base.{Bool, not, true, false, List, [], ◌∷◌, ◌++◌, some, ◌≡◌, refl, filter, repeat}
use on_re_sol.Js.{PublicKey, key}
use on_re_sol.Onchain.State.Operations.{is_default}
use on_re_sol.Onchain.Run.{
  Run, ok, ◌>>=◌, ◌>>◌, ok_or, require, checked, checked_sub, checked_div, divide, u64_max,
  u128_max,
}
use on_re_sol.Onchain.Price.{calculate_vector_price, calculate_step_price_at}
use on_re_sol.Onchain.Amounts.{calculate_fees, redemption_token_out_amount, pow10}
use on_re_sol.Onchain.Offer.{find_active_vector_at, max_by_start_time, latest, later, has_begun}
use on_re_sol.Onchain.Process.{process_redemption_core, current_step_price}
use on_re_sol.Onchain.Tokens.{
  TokenCall, transfer, burn, mint, user_in, user_out, boss_in, vault_in, vault_out, Exchange,
  invoke, execute_token_operations, execute_redemption_operations, pay_in, transfer_fee, distribute,
  release, mint_tokens, check_supply,
}
use on_re_sol.Onchain.Tokens.Balance.{taken, given}
use on_re_sol.Onchain.Tokens.Totals.{execute_token_operations-balance}
use on_re_sol.Onchain.Redemption.{
  Ledger, RedemptionRequest, make_redemption_offer, create_redemption_request, find_request,
  close_request, cancel_redemption_request, fulfill_redemption_request,
}
use on_re_sol.Onchain.Redemption.Locked.{IsBalanced}
use on_re_sol.Onchain.Redemption.Conserved.{
  IsLedger, opened, created, fulfilled, IsLedger-IsBalanced,
}
use on_re_sol.Onchain.Redemption.Returned.{cancel_redemption_request-ok}
use on_re_sol.Tests.Onchain.{state, owner, offer, dollar, coin}

abbrev token_program : TokenCall → Run (Unit {0})
token_program call = ok tt

abbrev alice : PublicKey
alice = key "Alice"

abbrev ledger : Ledger
ledger = record {
  account = record {
    offer = key "Offer";
    token_in_mint = key "Coin";
    token_out_mint = key "Dollar";
    executed_redemptions = 0;
    requested_redemptions = 0;
    fee_basis_points = 100;
    request_counter = 0;
  };
  requests = [];
  calls = [];
}

abbrev first_request : RedemptionRequest
first_request = record { request_id = 0; redeemer = alice; amount = 1_000_000_000 }

abbrev second_request : RedemptionRequest
second_request = record { request_id = 1; redeemer = alice; amount = 500 }

abbrev one_open : Ledger
one_open = record {
  account = record ledger.account { requested_redemptions = 1_000_000_000; request_counter = 1 };
  requests = first_request ∷ [];
  calls = transfer user_in vault_in 1_000_000_000 ∷ [];
}

abbrev two_open : Ledger
two_open = record {
  account = record ledger.account { requested_redemptions = 1_000_000_500; request_counter = 2 };
  requests = second_request ∷ first_request ∷ [];
  calls = transfer user_in vault_in 1_000_000_000 ∷ transfer user_in vault_in 500 ∷ [];
}

-- One percent of the coins is the fee; the rest is burned.
abbrev after : Ledger
after = record {
  account = record ledger.account {
    executed_redemptions = 1_000_000_000;
    requested_redemptions = 500;
    request_counter = 2;
  };
  requests = second_request ∷ [];
  calls =
      transfer user_in vault_in 1_000_000_000
      ∷ transfer user_in vault_in 500
      ∷ burn vault_in 990_000_000
      ∷ transfer vault_in boss_in 10_000_000
      ∷ transfer vault_out user_out 990271
      ∷ [];
}

ledger_opened :
    make_redemption_offer state owner (key "Offer") (key "Coin") (key "Dollar") 100 ≡ ok ledger
unfolding make_redemption_offer ◌>>◌ require
ledger_opened = refl

first_created :
    create_redemption_request token_program state ledger alice 1_000_000_000 ≡ ok one_open
unfolding create_redemption_request ◌>>◌ ◌>>=◌ require invoke ok_or checked u64_max u128_max
first_created = refl

second_created : create_redemption_request token_program state one_open alice 500 ≡ ok two_open
unfolding create_redemption_request ◌>>◌ ◌>>=◌ require invoke ok_or checked u64_max u128_max
second_created = refl

first_fulfilled :
    fulfill_redemption_request token_program state two_open owner
      (key "Helper")
      alice
      0
      offer
      160
      coin
      dollar
      true
      false
      0
    ≡ ok after
unfolding fulfill_redemption_request ◌>>◌ ◌>>=◌ require invoke ok_or checked checked_sub checked_div
    divide u64_max u128_max find_request close_request process_redemption_core find_active_vector_at
    max_by_start_time filter has_begun latest later repeat current_step_price
    calculate_step_price_at calculate_vector_price calculate_fees redemption_token_out_amount pow10
    execute_redemption_operations release distribute transfer_fee
first_fulfilled = refl

two_open-IsLedger : IsLedger two_open
two_open-IsLedger =
    created token_program state one_open alice 500 two_open
      (created token_program state ledger alice 1_000_000_000 one_open
        (opened state owner (key "Offer") (key "Coin") (key "Dollar") 100 ledger ledger_opened)
        first_created)
      second_created

IsLedger-IsBalanced_example : IsBalanced after
IsLedger-IsBalanced_example = IsLedger-IsBalanced after (
    fulfilled token_program state two_open owner (key "Helper") alice 0 offer 160 coin dollar true
      false 0 after two_open-IsLedger first_fulfilled)

-- Every key but the default one, which is the system program's, is passed as writable.
abbrev is_writable : PublicKey → Bool
is_writable k = not (is_default k)

abbrev init : PublicKey → Run (Unit {0})
init payer = ok tt

second_found : find_request 1 two_open.requests ≡ some second_request
unfolding find_request
second_found = refl

cancel_redemption_request-ok_example :
    (left : Ledger) × (cancel_redemption_request token_program state two_open is_writable init alice
        alice
        (key "Helper")
        1
      ≡ ok left)
    × (left.requests ≡ close_request 1 two_open.requests)
    × (left.calls ≡ two_open.calls ++ transfer vault_in user_in 500 ∷ [])
cancel_redemption_request-ok_example =
    cancel_redemption_request-ok token_program is_writable init state two_open 1 second_request
      two_open-IsLedger refl second_found refl refl refl

abbrev exchange : Exchange
exchange = record {
  controls_in = true;
  controls_out = true;
  net = 995;
  fee = 5;
  out = 990;
  supply = 100;
  max_supply = 2000;
}

abbrev exchange_calls : List TokenCall
exchange_calls =
    transfer user_in vault_in 995
    ∷ burn vault_in 995
    ∷ transfer user_in boss_in 5
    ∷ mint user_out 990
    ∷ []

exchanged :
    execute_token_operations token_program (ok false) (ok false) exchange ≡ ok exchange_calls
unfolding execute_token_operations pay_in distribute mint_tokens check_supply transfer_fee ◌>>◌
    ◌>>=◌ require invoke ok_or checked u64_max
exchanged = refl

execute_token_operations-balance_example :
    (taken user_in exchange_calls ≡ 1000)
    × (given user_out exchange_calls ≡ 990)
    × (given vault_in exchange_calls ≡ taken vault_in exchange_calls)
execute_token_operations-balance_example =
    execute_token_operations-balance token_program (ok false) (ok false) exchange exchanged
