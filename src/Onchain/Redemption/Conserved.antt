-- ===== src/Onchain/Redemption/Conserved.antt =====
-- programs/onreapp/src/instructions/redemption: every instruction keeps the locked tokens in balance.
use on_re_sol.Base.{ℕ, ◌+◌, Bool, inl, inr, [], ◌∷◌, ◌≡◌, refl, ap, arith}
use on_re_sol.Js.{PublicKey}
use on_re_sol.Onchain.Run.{Run, ok}
use on_re_sol.Onchain.Run.Inversion.{
  ok-inj, ok-bind, ok-then, ok-require, ok-ok_or, bind-checked, bind-checked_sub, bind-checked_div,
}
use on_re_sol.Onchain.State.{State}
use on_re_sol.Onchain.Amounts.{calculate_fees, CalculateFeeResult}
use on_re_sol.Onchain.Offer.{Offer}
use on_re_sol.Onchain.Process.{Mint, OfferProcessResult, process_redemption_core}
use on_re_sol.Onchain.Tokens.{TokenCall, transfer, user_in, vault_in}
use on_re_sol.Onchain.Tokens.Balance.{taken, given, taken-append, given-append, ok-invoke}
use on_re_sol.Onchain.Tokens.Totals.{execute_redemption_operations-balance}
use on_re_sol.Onchain.Redemption.{
  Ledger, make_redemption_offer, update_redemption_offer_fee, create_redemption_request,
  cancel_redemption_request, fulfill_redemption_request,
}
use on_re_sol.Onchain.Redemption.Locked.{IsBalanced, total, close-IsBalanced}

fees_add :
    (amount bps : ℕ) {r : CalculateFeeResult}
    → calculate_fees amount bps ≡ ok r
    → r.token_in_net_amount + r.token_in_fee_amount ≡ amount
unfolding calculate_fees
fees_add amount bps h =
    let (_, h1) = bind-checked _ _ _ _ h in
    let (_, h2) = bind-checked _ _ _ _ h1 in
    let (_, h3) = bind-checked_div _ _ _ _ h2 in
    let (covered, h4) = bind-checked_sub _ _ _ _ h3 in
    let net = ap (λ r. r.token_in_net_amount) (ok-inj h4) in
    let fee = ap (λ r. r.token_in_fee_amount) (ok-inj h4) in omega (arith, net, fee, covered)

core_adds :
    (offer : Offer) (now amount : ℕ) (token_in token_out : Mint) (bps : ℕ) {r : OfferProcessResult}
    → process_redemption_core offer now amount token_in token_out bps ≡ ok r
    → r.token_in_net_amount + r.token_in_fee_amount ≡ amount
unfolding process_redemption_core
core_adds offer now amount token_in token_out bps h =
    let (_, _, h1) = ok-bind h in
    let (_, _, h2) = ok-bind h1 in
    let (fees, charged, h3) = ok-bind h2 in
    let (_, _, h4) = ok-bind h3 in
    let net = ap (λ r. r.token_in_net_amount) (ok-inj h4) in
    let fee = ap (λ r. r.token_in_fee_amount) (ok-inj h4) in
    let sum = fees_add amount bps charged in omega (arith, net, fee, sum)

make_redemption_offer-IsBalanced :
    (state : State) (signer offer token_in token_out : PublicKey) (fee : ℕ) (l : Ledger)
    → make_redemption_offer state signer offer token_in token_out fee ≡ ok l
    → IsBalanced l
unfolding make_redemption_offer total taken given
make_redemption_offer-IsBalanced state signer offer token_in token_out fee l h =
    let (_, h1) = ok-require _ _ _ h in
    let (_, h2) = ok-require _ _ _ h1 in
    rw (← ok-inj h2)
      (record { requested = refl; named = refl; unique = tt; counted = λ r m. absurd m })

update_redemption_offer_fee-IsBalanced :
    (state : State) (boss : PublicKey) (l : Ledger) (fee : ℕ) (after : Ledger)
    → update_redemption_offer_fee state boss l fee ≡ ok after
    → IsBalanced l
    → IsBalanced after
unfolding update_redemption_offer_fee
update_redemption_offer_fee-IsBalanced state boss l fee after h b =
    let (_, h1) = ok-require _ _ _ h in
    let (_, h2) = ok-require _ _ _ h1 in
    let (_, h3) = ok-require _ _ _ h2 in
    rw (← ok-inj h3)
      (record { requested = b.requested; named = b.named; unique = b.unique; counted = b.counted })

module _ (token_program : TokenCall → Run (Unit {0})) (state : State) (l after : Ledger) where
  create_redemption_request-IsBalanced :
      (redeemer : PublicKey) (amount : ℕ)
      → create_redemption_request token_program state l redeemer amount ≡ ok after
      → IsBalanced l
      → IsBalanced after
  unfolding create_redemption_request total taken given
  create_redemption_request-IsBalanced redeemer amount h b =
      let (_, h1) = ok-require _ _ _ h in
      let (_, h2) = ok-require _ _ _ h1 in
      let (_, h3) = ok-require _ _ _ h2 in
      let (_, h4) = ok-require _ _ _ h3 in
      let (locking, moved, h5) = ok-bind h4 in
      let (_, h6) = bind-checked _ _ _ _ h5 in
      let (_, h7) = bind-checked _ _ _ _ h6 in
      let sum = b.requested in
      let held = b.named in
      let call = ok-invoke token_program _ moved in
      rw (← ok-inj h7, call)
        (record {
          requested = omega (arith, sum);
          named = omega (
            arith,
            held,
            given-append vault_in l.calls (transfer user_in vault_in amount ∷ []),
            taken-append vault_in l.calls (transfer user_in vault_in amount ∷ []),
          );
          unique = (λ r m e. let low = b.counted r m in omega (arith, low), b.unique);
          counted = λ r m. elim m [
            | inl same ↦ let id = ap (λ x. x.request_id) same in omega (arith, id)
            | inr old ↦ let low = b.counted r old in omega (arith, low)
          ];
        })

  cancel_redemption_request-IsBalanced :
      (is_writable : PublicKey → Bool) (init : PublicKey → Run (Unit {0}))
      (signer redeemer redemption_admin : PublicKey) (id : ℕ)
      → cancel_redemption_request token_program state l is_writable init signer redeemer
          redemption_admin id
        ≡ ok after
      → IsBalanced l
      → IsBalanced after
  unfolding cancel_redemption_request taken given
  cancel_redemption_request-IsBalanced is_writable init signer redeemer redemption_admin id h b =
      let (request, found, h0) = ok-bind h in
      let (_, h1) = ok-then _ _ h0 in
      let (_, h2) = ok-require _ _ _ h1 in
      let (_, h3) = ok-require _ _ _ h2 in
      let (_, h4) = ok-require _ _ _ h3 in
      let (_, h5) = ok-require _ _ _ h4 in
      let (_, h5b) = ok-require _ _ _ h5 in
      let (returning, moved, h6) = ok-bind h5b in
      let (_, h7) = bind-checked_sub _ _ _ _ h6 in
      let call = ok-invoke token_program _ moved in
      let gave = given-append vault_in l.calls (transfer vault_in user_in request.amount ∷ []) in
      let took = taken-append vault_in l.calls (transfer vault_in user_in request.amount ∷ []) in
      let there = ok-ok_or _ _ _ found in
      rw (← ok-inj h7, call)
        (close-IsBalanced l _ id request b there refl refl refl (omega (arith, gave))
          (omega (arith, took)))

  fulfill_redemption_request-IsBalanced :
      (boss redemption_admin redeemer : PublicKey) (id : ℕ) (offer : Offer) (now : ℕ)
      (token_in token_out : Mint) (controls_in controls_out : Bool) (supply : ℕ)
      → fulfill_redemption_request token_program state l boss redemption_admin redeemer id offer now
          token_in token_out controls_in controls_out supply
        ≡ ok after
      → IsBalanced l
      → IsBalanced after
  unfolding fulfill_redemption_request
  fulfill_redemption_request-IsBalanced boss redemption_admin redeemer id offer now token_in
        token_out controls_in controls_out supply h b =
      let (_, h1) = ok-require _ _ _ h in
      let (_, h2) = ok-require _ _ _ h1 in
      let (request, found, h3) = ok-bind h2 in
      let (_, h4) = ok-require _ _ _ h3 in
      let (_, h5) = ok-require _ _ _ h4 in
      let (result, priced, h6) = ok-bind h5 in
      let (redeeming, redeemed, h7) = ok-bind h6 in
      let (_, h8) = bind-checked _ _ _ _ h7 in
      let (_, h9) = bind-checked_sub _ _ _ _ h8 in
      let whole = core_adds offer now request.amount token_in token_out _ priced in
      let (paid, nothing_in, _) = execute_redemption_operations-balance token_program _ redeemed in
      let gave = given-append vault_in l.calls redeeming in
      let took = taken-append vault_in l.calls redeeming in
      rw (← ok-inj h9) (
        close-IsBalanced l _ id request b (ok-ok_or _ _ _ found) refl refl refl
          (omega (arith, gave, nothing_in)) (omega (arith, took, paid, whole)))

-- The ledgers after any instructions on a redemption offer, whoever signs them, whatever the state
-- account and the price offer are at the time, and however the token programs answer.
pub data IsLedger : Ledger → Type 0 where
  opened :
      (state : State) (signer offer token_in token_out : PublicKey) (fee : ℕ) (l : Ledger)
      → make_redemption_offer state signer offer token_in token_out fee ≡ ok l
      → IsLedger l
  fee_changed :
      (state : State) (boss : PublicKey) (l : Ledger) (fee : ℕ) (after : Ledger)
      → IsLedger l
      → update_redemption_offer_fee state boss l fee ≡ ok after
      → IsLedger after
  created :
      (token_program : TokenCall → Run (Unit {0})) (state : State) (l : Ledger)
      (redeemer : PublicKey) (amount : ℕ) (after : Ledger)
      → IsLedger l
      → create_redemption_request token_program state l redeemer amount ≡ ok after
      → IsLedger after
  cancelled :
      (token_program : TokenCall → Run (Unit {0})) (state : State) (l : Ledger)
      (is_writable : PublicKey → Bool) (init : PublicKey → Run (Unit {0}))
      (signer redeemer redemption_admin : PublicKey) (id : ℕ) (after : Ledger)
      → IsLedger l
      → cancel_redemption_request token_program state l is_writable init signer redeemer
          redemption_admin id
        ≡ ok after
      → IsLedger after
  fulfilled :
      (token_program : TokenCall → Run (Unit {0})) (state : State) (l : Ledger)
      (boss redemption_admin redeemer : PublicKey) (id : ℕ) (offer : Offer) (now : ℕ)
      (token_in token_out : Mint) (controls_in controls_out : Bool) (supply : ℕ) (after : Ledger)
      → IsLedger l
      → fulfill_redemption_request token_program state l boss redemption_admin redeemer id offer now
          token_in token_out controls_in controls_out supply
        ≡ ok after
      → IsLedger after

-- Whatever instructions are carried out on a redemption offer, the counter of requested tokens is
-- the sum over the open requests; the amounts that the token calls of these instructions transfer to
-- the vault exceed those that they take out of it by exactly that sum; and the ids of the open
-- requests are distinct and below the request counter. The amounts are those that the calls name: a
-- transfer fee of the token, other redemption offers and the withdrawals of the boss are left aside.
pub IsLedger-IsBalanced : (l : Ledger) → IsLedger l → IsBalanced l
IsLedger-IsBalanced _ (opened s k o i t f l h) = make_redemption_offer-IsBalanced s k o i t f l h
IsLedger-IsBalanced _ (fee_changed s k l f after r h) =
    update_redemption_offer_fee-IsBalanced s k l f after h (IsLedger-IsBalanced l r)
IsLedger-IsBalanced _ (created p s l k n after r h) =
    create_redemption_request-IsBalanced p s l after k n h (IsLedger-IsBalanced l r)
IsLedger-IsBalanced _ (cancelled p s l v i k a m n after r h) =
    cancel_redemption_request-IsBalanced p s l after v i k a m n h (IsLedger-IsBalanced l r)
IsLedger-IsBalanced _ (fulfilled p s l k a m n o now i t x y z after r h) =
    fulfill_redemption_request-IsBalanced p s l after k a m n o now i t x y z h
      (IsLedger-IsBalanced l r)
