-- ===== src/Onchain/Redemption/Returned.antt =====
-- programs/onreapp/src/instructions/redemption/cancel_redemption_request.rs: locked tokens can be had
-- back.
use on_re_sol.Base.{ℕ, ◌-◌, leb, Bool, true, false, ◌||◌, some, ◌≡◌, refl, arith, ◌++◌, [], ◌∷◌}
use on_re_sol.Js.{PublicKey, equals}
use on_re_sol.Onchain.Run.{Run, ok, ◌>>=◌, ◌>>◌, ok_or, require, checked_sub}
use on_re_sol.Onchain.State.{State}
use on_re_sol.Onchain.State.Authority.{equals_refl}
use on_re_sol.Onchain.Tokens.{TokenCall, transfer, user_in, vault_in, invoke}
use on_re_sol.Onchain.Redemption.{
  RedemptionRequest, Ledger, find_request, close_request, cancel_redemption_request,
}
use on_re_sol.Onchain.Redemption.Locked.{total-close}
use on_re_sol.Onchain.Redemption.Conserved.{IsLedger, IsLedger-IsBalanced}

or_true : (a b : Bool) → b ≡ true → a || b ≡ true
or_true true b h = refl
or_true false b h = h

-- The redeemer of an open request can cancel it while the kill switch is off, under three conditions
-- on what is outside the ledger: the account of the redemption admin is writable, the redeemer's
-- token account is there or can be created at the redeemer's cost, and the token program makes the
-- transfer of the locked amount from the vault to the redeemer. Then the cancellation ends well,
-- closes the request, and makes that transfer and no other call.
pub cancel_redemption_request-ok :
    (token_program : TokenCall → Run (Unit {0})) (is_writable : PublicKey → Bool)
    (init : PublicKey → Run (Unit {0})) (state : State) (l : Ledger) (id : ℕ)
    (r : RedemptionRequest)
    → IsLedger l
    → state.is_killed ≡ false
    → find_request id l.requests ≡ some r
    → is_writable state.redemption_admin ≡ true
    → init r.redeemer ≡ ok tt
    → token_program (transfer vault_in user_in r.amount) ≡ ok tt
    → (after : Ledger) × (cancel_redemption_request token_program state l is_writable init
          r.redeemer r.redeemer state.redemption_admin id
        ≡ ok after)
      × (after.requests ≡ close_request id l.requests)
      × (after.calls ≡ l.calls ++ transfer vault_in user_in r.amount ∷ [])
unfolding cancel_redemption_request invoke ◌>>=◌ ◌>>◌ ok_or require checked_sub
cancel_redemption_request-ok token_program is_writable init state l id r reached alive found
      writable there moves =
    let sum = (IsLedger-IsBalanced l reached).requested in
    let split = total-close id l.requests r found in
    let enough : leb r.amount l.account.requested_redemptions ≡ true = ground (arith, sum, split) in
    let own = equals_refl r.redeemer in
    let allowed =
      or_true (equals r.redeemer state.boss || equals r.redeemer state.redemption_admin) _ own in
    let after : Ledger = record {
      account = record l.account {
        requested_redemptions = l.account.requested_redemptions - r.amount;
      };
      requests = close_request id l.requests;
      calls = l.calls ++ transfer vault_in user_in r.amount ∷ [];
    } in
    (
      after,
      rw
          (
            found,
            there,
            alive,
            allowed,
            own,
            writable,
            equals_refl state.redemption_admin,
            moves,
            enough,
          )
          refl,
      refl,
      refl,
    )
