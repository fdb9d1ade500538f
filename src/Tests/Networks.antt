-- ===== src/Tests/Networks.antt =====
-- The selection of the network and the tables of tokens, at concrete inputs.
use on_re_sol.Base.{
  lookup, String, [], ◌∷◌, All, ◌≡◌, ◌≢◌, ◌↔◌, ◌⊎◌, refl, some, none, ◌==◌, true, if◌then◌else◌,
}
use on_re_sol.Js.{pubkey}
use on_re_sol.Network.{
  Environment, network_configs, selected, find_config, get_network_config, with_network_argument,
  mainnet_prod, devnet_test,
}
use on_re_sol.Network.Selection.{
  get_network_config-name, with_network_argument-flag, get_network_config-no_flag,
}
use on_re_sol.Network.Isolation.{IsIsolated, network_configs-IsIsolated}
use on_re_sol.Tokens.{get_token_decimals, get_token_program_id}
use on_re_sol.Tokens.Agreement.{
  HasTokens, succeeds, get_token_decimals-get_token_program_id, network_configs-HasTokens,
}
use on_re_sol.Tests.Fixtures.{empty_environment, cfg}

abbrev devnet_environment : Environment
devnet_environment name = if name == "NETWORK" then some "devnet-test" else none

get_network_config_devnet :
    get_network_config devnet_environment ≡ selected (devnet_test devnet_environment)
unfolding get_network_config find_config network_configs lookup
get_network_config_devnet = refl

get_network_config-name_example : (devnet_test devnet_environment).name ≡ "devnet-test"
get_network_config-name_example =
    get_network_config-name devnet_environment "devnet-test" (devnet_test devnet_environment) refl
      (λ h. cc) get_network_config_devnet

with_network_argument-flag_example :
    (with_network_argument ("state" ∷ "-n" ∷ "devnet-dev" ∷ "get" ∷ []) empty_environment "NETWORK"
      ≡ some "devnet-dev")
    × ((other : String)
        → other ≢ "NETWORK"
        → with_network_argument ("state" ∷ "-n" ∷ "devnet-dev" ∷ "get" ∷ []) empty_environment other
          ≡ empty_environment other)
with_network_argument-flag_example =
    with_network_argument-flag ("state" ∷ []) ("get" ∷ []) "-n" "devnet-dev" empty_environment
      (refl, tt) refl (λ h. cc)

-- The flag is joined to its value.
get_network_config-no_flag_example :
    (get_network_config
        (with_network_argument ("--network=devnet-test" ∷ "state" ∷ "get" ∷ []) empty_environment)
      ≡ get_network_config empty_environment)
    × (empty_environment "NETWORK" ≡ none
        → get_network_config (
            with_network_argument
              ("--network=devnet-test" ∷ "state" ∷ "get" ∷ [])
              empty_environment)
          ≡ selected (mainnet_prod empty_environment))
get_network_config-no_flag_example =
    get_network_config-no_flag ("--network=devnet-test" ∷ "state" ∷ "get" ∷ []) empty_environment
      (refl, (refl, (refl, tt)))

network_configs-IsIsolated_example :
    All (IsIsolated empty_environment) (network_configs empty_environment)
network_configs-IsIsolated_example = network_configs-IsIsolated empty_environment

network_configs-HasTokens_example : All HasTokens (network_configs empty_environment)
network_configs-HasTokens_example = network_configs-HasTokens empty_environment

get_token_decimals-get_token_program_id_example :
    (succeeds (get_token_decimals cfg (pubkey cfg.mints.usdg))
      ≡ succeeds (get_token_program_id cfg (pubkey cfg.mints.usdg)))
    × ((succeeds (get_token_program_id cfg (pubkey cfg.mints.usdg)) ≡ true) ↔ (
        (cfg.mints.usdc ≡ cfg.mints.usdg)
        ⊎ (cfg.mints.usdg ≡ cfg.mints.usdg)
        ⊎ (cfg.mints.onyc ≡ cfg.mints.usdg)))
get_token_decimals-get_token_program_id_example =
    get_token_decimals-get_token_program_id cfg cfg.mints.usdg
