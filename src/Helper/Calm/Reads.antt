-- ===== src/Helper/Calm/Reads.antt =====
-- scripts/utils/script-helper.ts: the accounts that are read.
use on_re_sol.Js.{Value, PublicKey}
use on_re_sol.Session.{Platform, Keeps}
use on_re_sol.Session.Calm.{Quiet, of_pure, of_bind, of_option_lem}
use on_re_sol.Network.{NetworkConfig}
use on_re_sol.Helper.Addresses.{
  get_state, get_boss, get_redemption_request_pda, fetch_redemption_offer, fetch_redemption_request,
}

module _ (p : Platform) (cfg : NetworkConfig) where
  pub get_state-Quiet : Keeps Quiet (get_state p cfg)
  unfolding get_state
  get_state-Quiet = of_option_lem _ _

  pub get_boss-Quiet : Keeps Quiet (get_boss p cfg)
  unfolding get_boss
  get_boss-Quiet = of_bind get_state-Quiet λ state. of_pure

  pub request_pda-Quiet :
      (offer : PublicKey) (counter : Value)
      → Keeps Quiet (get_redemption_request_pda p cfg offer counter)
  request_pda-Quiet offer counter = of_bind (of_option_lem _ _) λ n. of_pure

  pub fetch_offer-Quiet :
      (token_in token_out : Value) → Keeps Quiet (fetch_redemption_offer p cfg token_in token_out)
  unfolding fetch_redemption_offer
  fetch_offer-Quiet token_in token_out = of_option_lem _ _

  pub fetch_request-Quiet :
      (offer : PublicKey) (counter : Value)
      → Keeps Quiet (fetch_redemption_request p cfg offer counter)
  unfolding fetch_redemption_request
  fetch_request-Quiet offer counter =
      of_bind (request_pda-Quiet offer counter) λ address. of_option_lem _ _
