-- ===== src/Onchain/Redemption/Locked.antt =====
-- programs/onreapp/src/instructions/redemption: the open requests and what is locked for them.
use mathlib.Core.Option.{some-injective}
use on_re_sol.Base.{
  ℕ, ◌+◌, ◌-◌, ◌<◌, Bool-cases, inl, inr, List, [], ◌∷◌, some, ◌≡◌, ◌≢◌, refl, arith, Among,
  Pairwise,
}
use on_re_sol.Onchain.Redemption.{RedemptionRequest, Ledger, has_id, find_request, close_request}
use on_re_sol.Onchain.Tokens.{vault_in}
use on_re_sol.Onchain.Tokens.Balance.{taken, given}

unfoldable pub total : List RedemptionRequest → ℕ
total [] = 0
total (r ∷ rs) = r.amount + total rs

abbrev pub Differ : RedemptionRequest → RedemptionRequest → Type 0
Differ r s = r.request_id ≢ s.request_id

-- The counter of requested tokens is the sum over the open requests. The calls name that much more
-- to be given to the vault than to be taken from it. The ids are distinct and below the counter of requests.
pub record IsBalanced (l : Ledger) : Type 0 where
  pub requested : l.account.requested_redemptions ≡ total l.requests
  pub named : given vault_in l.calls ≡ taken vault_in l.calls + l.account.requested_redemptions
  pub unique : Pairwise Differ l.requests
  pub counted :
      (r : RedemptionRequest) → Among r l.requests → r.request_id < l.account.request_counter

close-Among :
    (id : ℕ) (rs : List RedemptionRequest) (r : RedemptionRequest)
    → Among r (close_request id rs)
    → Among r rs
unfolding close_request
close-Among id [] r m = m
close-Among id (s ∷ rs) r m = elim (Bool-cases (has_id id s)) [
  | inl closed ↦ inr (rw closed at m)
  | inr other ↦ elim (rw other at m) [ inl e ↦ inl e | inr n ↦ inr (close-Among id rs r n) ]
]

close-Pairwise :
    (id : ℕ) (rs : List RedemptionRequest)
    → Pairwise Differ rs
    → Pairwise Differ (close_request id rs)
unfolding close_request
close-Pairwise id [] h = tt
close-Pairwise id (s ∷ rs) (first, rest) = elim (Bool-cases (has_id id s)) [
  | inl closed ↦ rw closed rest
  | inr other ↦ rw other (λ r m. first r (close-Among id rs r m), close-Pairwise id rs rest)
]

pub total-close :
    (id : ℕ) (rs : List RedemptionRequest) (r : RedemptionRequest)
    → find_request id rs ≡ some r
    → total rs ≡ r.amount + total (close_request id rs)
unfolding find_request close_request total
total-close id [] r h = cc
total-close id (s ∷ rs) r h = elim (Bool-cases (has_id id s)) [
  | inl here ↦ let same : s ≡ r = some-injective _ _ (rw here at h) in rw (here, same) refl
  | inr other ↦ let rest = total-close id rs r (rw other at h) in rw other (omega (arith, rest))
]

-- A request that is paid out of the vault in full and closed leaves the others balanced.
pub close-IsBalanced :
    (l after : Ledger) (id : ℕ) (r : RedemptionRequest)
    → IsBalanced l
    → find_request id l.requests ≡ some r
    → after.requests ≡ close_request id l.requests
    → after.account.requested_redemptions ≡ l.account.requested_redemptions - r.amount
    → after.account.request_counter ≡ l.account.request_counter
    → given vault_in after.calls ≡ given vault_in l.calls
    → taken vault_in after.calls ≡ taken vault_in l.calls + r.amount
    → IsBalanced after
close-IsBalanced l after id r h found closed less same gave took =
    let sum = h.requested in
    let locked = h.named in
    let split = total-close id l.requests r found in
    record {
      requested = rw closed (omega (arith, sum, split, less));
      named = omega (arith, sum, split, less, locked, gave, took);
      unique = rw closed (close-Pairwise id l.requests h.unique);
      counted = λ s m. rw same (h.counted s (close-Among id l.requests s (rw closed at m)));
    }
