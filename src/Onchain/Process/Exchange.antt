-- ===== src/Onchain/Process/Exchange.antt =====
-- programs/onreapp/src/instructions: buying through an offer and redeeming what was bought.
use on_re_sol.Base.{ℕ, ◌≤◌, ◌≡◌, sym, ap, ◌∙◌, arith}
use on_re_sol.Onchain.Run.{Run, ok}
use on_re_sol.Onchain.Run.Inversion.{
  ok-inj, ok-bind, ok-require, bind-checked, bind-checked_div, bind-checked_sub,
}
use on_re_sol.Onchain.Amounts.{
  calculate_fees, CalculateFeeResult, calculate_token_out_amount, redemption_token_out_amount,
}
use on_re_sol.Onchain.Amounts.Rounding.{bought-redeemed}
use on_re_sol.Onchain.Offer.{Offer, OfferVector, find_active_vector_at}
use on_re_sol.Onchain.Process.{
  Mint, OfferProcessResult, current_step_price, process_offer_core, process_redemption_core,
}

net-le :
    (amount bps : ℕ) {r : CalculateFeeResult}
    → calculate_fees amount bps ≡ ok r
    → r.token_in_net_amount ≤ amount
unfolding calculate_fees
net-le amount bps h =
    let (_, h1) = bind-checked _ _ _ _ h in
    let (_, h2) = bind-checked _ _ _ _ h1 in
    let (_, h3) = bind-checked_div _ _ _ _ h2 in
    let (_, h4) = bind-checked_sub _ _ _ _ h3 in
    let net = ap (λ r. r.token_in_net_amount) (ok-inj h4) in omega (arith, net)

-- The price at which an exchange is made, and the amount that it gives for what the fee leaves.
record Exchanged (offer : Offer) (now amount : ℕ) (give : ℕ → ℕ → Run ℕ) (r : OfferProcessResult)
    : Type 0 where
  price : ℕ
  active : OfferVector
  found : find_active_vector_at offer.vectors now ≡ ok active
  priced : current_step_price active now ≡ ok price
  net : ℕ
  net_le : net ≤ amount
  given : give net price ≡ ok r.token_out_amount

bought :
    (offer : Offer) (now amount : ℕ) (token_in token_out : Mint) (r : OfferProcessResult)
    → process_offer_core offer now amount token_in token_out ≡ ok r
    → Exchanged offer now amount
        (λ net price. calculate_token_out_amount net price token_in.decimals token_out.decimals)
        r
unfolding process_offer_core
bought offer now amount token_in token_out r h =
    let (_, h1) = ok-require _ _ _ h in
    let (_, h2) = ok-require _ _ _ h1 in
    let (active, found, h3) = ok-bind h2 in
    let (price, priced, h4) = ok-bind h3 in
    let (fees, charged, h5) = ok-bind h4 in
    let (out, given, h6) = ok-bind h5 in
    record {
      price = price;
      active = active;
      found = found;
      priced = priced;
      net = fees.token_in_net_amount;
      net_le = net-le amount offer.fee_basis_points charged;
      given = given ∙ ap (λ x. ok (x.token_out_amount)) (ok-inj h6);
    }

redeemed :
    (offer : Offer) (now amount : ℕ) (token_in token_out : Mint) (fee : ℕ) (r : OfferProcessResult)
    → process_redemption_core offer now amount token_in token_out fee ≡ ok r
    → Exchanged offer now amount
        (λ net price. redemption_token_out_amount net price token_in.decimals token_out.decimals)
        r
unfolding process_redemption_core
redeemed offer now amount token_in token_out fee r h =
    let (active, found, h3) = ok-bind h in
    let (price, priced, h4) = ok-bind h3 in
    let (fees, charged, h5) = ok-bind h4 in
    let (out, given, h6) = ok-bind h5 in
    record {
      price = price;
      active = active;
      found = found;
      priced = priced;
      net = fees.token_in_net_amount;
      net_le = net-le amount fee charged;
      given = given ∙ ap (λ x. ok (x.token_out_amount)) (ok-inj h6);
    }

-- Whoever buys through an offer and at the same moment redeems no more than was bought, with any
-- two fees, gets back no more than was paid.
pub process_redemption_core-le :
    (offer : Offer) (now paid amount : ℕ) (token_in token_out : Mint) (redemption_fee : ℕ)
    {bought_result redeemed_result : OfferProcessResult}
    → process_offer_core offer now paid token_in token_out ≡ ok bought_result
    → amount ≤ bought_result.token_out_amount
    → process_redemption_core offer now amount token_out token_in redemption_fee
      ≡ ok redeemed_result
    → redeemed_result.token_out_amount ≤ paid
process_redemption_core-le offer now paid amount token_in token_out redemption_fee buy less redeem =
    let b = bought offer now paid token_in token_out _ buy in
    let r = redeemed offer now amount token_out token_in redemption_fee _ redeem in
    let same : b.active ≡ r.active = ok-inj (sym b.found ∙ r.found) in
    let price : b.price ≡ r.price =
      ok-inj (sym b.priced ∙ ap (λ v. current_step_price v now) same ∙ r.priced) in
    let bound = r.net_le in
    let back =
      bought-redeemed b.price token_in.decimals token_out.decimals b.net r.net b.given
        (omega (arith, bound, less))
        (ap (λ p. redemption_token_out_amount r.net p token_out.decimals token_in.decimals) price
          ∙ r.given) in
    let cost = b.net_le in omega (arith, back, cost)
