-- ===== src/Commands/Redemption/Order.antt =====
-- scripts/cli/implementations/redemption/redemption-list-requests.ts: the list of the requests.
use mathlib.Core.List.Perm
use mathlib.Core.List.{Perm}
use on_re_sol.Base.{ℕ, ◌≤◌, String, Option, none, some, List, [], ◌∷◌, All}
use on_re_sol.Js.{PublicKey, base58, Value, Object, get, undefined, pubkey}
use on_re_sol.Session.{Platform, RedemptionRequest}
use on_re_sol.Network.{NetworkConfig}
use on_re_sol.Helper.Addresses.{get_redemption_offer_pda}

abbrev Item : Type 0
Item = ℕ × RedemptionRequest

abbrev pub IsSorted : List (ℕ × RedemptionRequest) → Type 0
IsSorted [] = Unit
IsSorted (r ∷ rs) = All (λ s. r.0 ≤ s.0) rs × IsSorted rs

-- What the requests are searched by: the bytes of the offer from position 8, and those of the
-- redeemer, if one is wanted, from position 48.
abbrev pub search_filters : PublicKey → Option PublicKey → List (ℕ × String)
search_filters offer none = (8, base58 offer) ∷ []
search_filters offer (some redeemer) = (8, base58 offer) ∷ (48, base58 redeemer) ∷ []

abbrev pub redeemer_value : Option PublicKey → Value
redeemer_value none = undefined
redeemer_value (some k) = pubkey k

module _ (p : Platform) (cfg : NetworkConfig) (opts : Object) (params : Object) where
  abbrev pub listed_offer : PublicKey
  listed_offer = get_redemption_offer_pda p cfg (get params "tokenIn") (get params "tokenOut")
