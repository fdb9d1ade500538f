-- ===== src/Onchain/Redemption.antt =====
-- programs/onreapp/src/instructions/redemption: the requests of a redemption offer, from the locking
-- of the tokens to their return or redemption.
pub mod Locked
pub mod Conserved
pub mod Returned
use on_re_sol.Base.{
  ℕ, ◌+◌, leb, eqb, Bool, true, false, not, ◌||◌, any, if◌then◌else◌, List, [], ◌∷◌, ◌++◌, Option,
  none, some,
}
use on_re_sol.Js.{PublicKey, equals}
use on_re_sol.Onchain.Run.{
  Run, ok, ◌>>=◌, ◌>>◌, ok_or, require, checked, checked_sub, u64_max, u128_max,
  kill_switch_activated, invalid_redemption_offer, arithmetic_overflow, arithmetic_underflow,
  unauthorized, account_not_initialized, account_in_use, invalid_redeemer, invalid_redemption_admin,
  invalid_boss, invalid_fee, no_change, constraint_mut,
}
use on_re_sol.Onchain.State.{State}
use on_re_sol.Onchain.State.Operations.{is_default}
use on_re_sol.Onchain.Offer.{Offer, max_allowed_fee_bps}
use on_re_sol.Onchain.Process.{Mint, process_redemption_core}
use on_re_sol.Onchain.Tokens.{
  TokenCall, transfer, user_in, vault_in, invoke, Exchange, execute_redemption_operations,
}

pub record RedemptionOffer : Type 0 where
  pub offer : PublicKey
  pub token_in_mint : PublicKey
  pub token_out_mint : PublicKey
  pub executed_redemptions : ℕ
  pub requested_redemptions : ℕ
  pub fee_basis_points : ℕ
  pub request_counter : ℕ

pub record RedemptionRequest : Type 0 where
  pub request_id : ℕ
  pub redeemer : PublicKey
  pub amount : ℕ

-- A redemption offer account, the request accounts that are open for it, and the calls of the token
-- programs that were made for it.
pub record Ledger : Type 0 where
  pub account : RedemptionOffer
  pub requests : List RedemptionRequest
  pub calls : List TokenCall

abbrev pub has_id : ℕ → RedemptionRequest → Bool
has_id id r = eqb r.request_id id

-- The request account whose address is derived from the id.
unfoldable pub find_request : ℕ → List RedemptionRequest → Option RedemptionRequest
find_request id [] = none
find_request id (r ∷ rs) = if has_id id r then some r else find_request id rs

-- `close = redemption_admin`
unfoldable pub close_request : ℕ → List RedemptionRequest → List RedemptionRequest
close_request id [] = []
close_request id (r ∷ rs) = let rest = close_request id rs in if has_id id r then rs else r ∷ rest

unfoldable pub make_redemption_offer :
    State → PublicKey → PublicKey → PublicKey → PublicKey → ℕ → Run Ledger
make_redemption_offer state signer offer token_in_mint token_out_mint fee_basis_points = do
  require (equals signer state.boss || equals signer state.redemption_admin) unauthorized
  require (leb fee_basis_points max_allowed_fee_bps) invalid_fee
  ok (record {
    account = record {
      offer = offer;
      token_in_mint = token_in_mint;
      token_out_mint = token_out_mint;
      executed_redemptions = 0;
      requested_redemptions = 0;
      fee_basis_points = fee_basis_points;
      request_counter = 0;
    };
    requests = [];
    calls = [];
  })

unfoldable pub update_redemption_offer_fee : State → PublicKey → Ledger → ℕ → Run Ledger
update_redemption_offer_fee state boss ledger new_fee_basis_points = do
  require (equals state.boss boss) unauthorized
  require (leb new_fee_basis_points max_allowed_fee_bps) invalid_fee
  require (not (eqb new_fee_basis_points ledger.account.fee_basis_points)) no_change
  ok (record ledger { account = record ledger.account { fee_basis_points = new_fee_basis_points } })

module _ (token_program : TokenCall → Run (Unit {0})) (state : State) (ledger : Ledger) where
  unfoldable pub create_redemption_request : PublicKey → ℕ → Run Ledger
  create_redemption_request redeemer amount = do
    require (not state.is_killed) kill_switch_activated
    require (not (any (has_id ledger.account.request_counter) ledger.requests)) account_in_use
    require (not (is_default ledger.account.offer)) invalid_redemption_offer
    require (not (is_default ledger.account.token_out_mint)) invalid_redemption_offer
    locking ← invoke token_program (transfer user_in vault_in amount)
    requested ←
        ok_or arithmetic_overflow (checked u128_max (ledger.account.requested_redemptions + amount))
    counter ← ok_or arithmetic_overflow (checked u64_max (ledger.account.request_counter + 1))
    ok (record {
      account = record ledger.account {
        requested_redemptions = requested;
        request_counter = counter;
      };
      requests =
          record {
            request_id = ledger.account.request_counter;
            redeemer = redeemer;
            amount = amount;
          }
          ∷ ledger.requests;
      calls = ledger.calls ++ locking;
    })

  -- The accounts beside those of the program: whether a key stands for a writable account, and what
  -- `init_if_needed` of the redeemer's token account ends in, for which the signer pays.
  unfoldable pub cancel_redemption_request :
      (PublicKey → Bool)
      → (PublicKey → Run (Unit {0}))
      → PublicKey
      → PublicKey
      → PublicKey
      → ℕ
      → Run Ledger
  cancel_redemption_request is_writable init_redeemer_token_account signer redeemer redemption_admin
        id =
      do
        request ← ok_or account_not_initialized (find_request id ledger.requests)
        init_redeemer_token_account signer
        require (not state.is_killed) kill_switch_activated
        require
            (equals signer state.boss
              || equals signer state.redemption_admin
              || equals signer request.redeemer)
            unauthorized
        require (equals redeemer request.redeemer) invalid_redeemer
        require (is_writable redemption_admin) constraint_mut
        require (equals redemption_admin state.redemption_admin) invalid_redemption_admin
        returning ← invoke token_program (transfer vault_in user_in request.amount)
        requested ←
            ok_or arithmetic_underflow
              (checked_sub ledger.account.requested_redemptions request.amount)
        ok (record {
          account = record ledger.account { requested_redemptions = requested };
          requests = close_request id ledger.requests;
          calls = ledger.calls ++ returning;
        })

  -- The flags say whether the program mints the two tokens.
  unfoldable pub fulfill_redemption_request :
      PublicKey → PublicKey → PublicKey → ℕ → Offer → ℕ → Mint → Mint → Bool → Bool → ℕ → Run Ledger
  fulfill_redemption_request boss redemption_admin redeemer id offer now token_in token_out
        controls_in controls_out supply =
      do
        require (equals state.boss boss) invalid_boss
        require (not state.is_killed) kill_switch_activated
        request ← ok_or account_not_initialized (find_request id ledger.requests)
        require (equals redeemer request.redeemer) invalid_redeemer
        require (equals redemption_admin state.redemption_admin) unauthorized
        result ←
            process_redemption_core offer now request.amount token_in token_out
              ledger.account.fee_basis_points
        redeeming ← execute_redemption_operations token_program (record {
          controls_in = controls_in;
          controls_out = controls_out;
          net = result.token_in_net_amount;
          fee = result.token_in_fee_amount;
          out = result.token_out_amount;
          supply = supply;
          max_supply = 0;
        })
        executed ←
            ok_or arithmetic_overflow
              (checked u128_max (ledger.account.executed_redemptions + request.amount))
        requested ←
            ok_or arithmetic_underflow
              (checked_sub ledger.account.requested_redemptions request.amount)
        ok (record {
          account = record ledger.account {
            executed_redemptions = executed;
            requested_redemptions = requested;
          };
          requests = close_request id ledger.requests;
          calls = ledger.calls ++ redeeming;
        })
