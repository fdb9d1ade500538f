-- ===== src/Tokens/Agreement.antt =====
-- scripts/cli/utils/token-utils.ts: its two tables side by side.
use on_re_sol.Base.{String, Bool, true, false, ◌≡◌, ◌↔◌, ◌⊎◌, All, refl, arith}
use on_re_sol.Js.{PublicKey, key, base58-eq_iff, pubkey}
use on_re_sol.Session.{Outcome, ok, throw}
use on_re_sol.Network.{NetworkConfig, Environment, network_configs}
use on_re_sol.Tokens.{
  token_program_id, token_2022_program_id, get_token_decimals, get_token_program_id,
}

abbrev pub succeeds : {A : Type 0} → Outcome A → Bool
succeeds (ok _) = true
succeeds (throw _) = false

-- What the tables say of the tokens of one network.
abbrev pub HasTokens : String × NetworkConfig → Type 0
HasTokens (name, c) =
    (get_token_decimals c (pubkey c.mints.usdc) ≡ ok 6)
    × (get_token_decimals c (pubkey c.mints.usdg) ≡ ok 6)
    × (get_token_decimals c (pubkey c.mints.onyc) ≡ ok 9)
    × (get_token_program_id c (pubkey c.mints.usdc) ≡ ok token_program_id)
    × (get_token_program_id c (pubkey c.mints.usdg) ≡ ok token_2022_program_id)
    × (get_token_program_id c (pubkey c.mints.onyc) ≡ ok token_program_id)

-- In every network USDC and USDG have 6 decimals and ONyc has 9, and only USDG is a token of the
-- Token-2022 program: no mint of a network is mistaken for another one.
pub network_configs-HasTokens : (env : Environment) → All HasTokens (network_configs env)
unfolding network_configs get_token_decimals get_token_program_id
network_configs-HasTokens env = (
  (refl, refl, refl, refl, refl, refl),
  (
    (refl, refl, refl, refl, refl, refl),
    (
      (refl, refl, refl, refl, refl, refl),
      ((refl, refl, refl, refl, refl, refl), ((refl, refl, refl, refl, refl, refl), tt)),
    ),
  ),
)

-- Decimals are known exactly of the mints whose token program is known, in any configuration, and
-- those are its three mints.
pub get_token_decimals-get_token_program_id :
    (c : NetworkConfig) (mint : PublicKey)
    → (succeeds (get_token_decimals c (pubkey mint))
        ≡ succeeds (get_token_program_id c (pubkey mint)))
      × ((succeeds (get_token_program_id c (pubkey mint)) ≡ true)
          ↔ ((c.mints.usdc ≡ mint) ⊎ (c.mints.usdg ≡ mint) ⊎ (c.mints.onyc ≡ mint)))
unfolding get_token_decimals get_token_program_id
get_token_decimals-get_token_program_id c (key a) = (
  ground arith,
  ground (
    arith,
    base58-eq_iff c.mints.usdc a,
    base58-eq_iff c.mints.usdg a,
    base58-eq_iff c.mints.onyc a,
  ),
)
