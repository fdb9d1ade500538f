-- ===== src/Network/Selection.antt =====
-- scripts/utils/network-config.ts and scripts/cli/index.ts: the selection of a configuration.
use on_re_sol.Base.{
  String, true, false, ◌||◌, List, [], ◌∷◌, ◌++◌, none, some, ◌==◌, eq_iff, ◌≡◌, ◌≢◌, refl, arith,
  All,
}
use mathlib.Core.Path.{fun_ext}
use on_re_sol.Network.Isolation.{IsIsolated, network_configs-IsIsolated}
use on_re_sol.Base.{lookup-All}
use on_re_sol.Network.{
  NetworkConfig, Environment, network_configs, selected, find_config, get_network_config,
  network_argument, with_network_argument, mainnet_prod,
}

-- A variable NETWORK that is set and not empty selects a configuration only if it is the name of
-- that configuration.
pub get_network_config-name :
    (env : Environment) (name : String) (c : NetworkConfig)
    → env "NETWORK" ≡ some name
    → name ≢ ""
    → get_network_config env ≡ selected c
    → c.name ≡ name
unfolding get_network_config find_config
get_network_config-name env name c is_set nonempty h =
    (lookup-All (IsIsolated env) name (network_configs env) c (ground (arith, eq_iff name ""))
      (network_configs-IsIsolated env)).0

abbrev pub IsNetworkFlag : String → Type 0
IsNetworkFlag arg = (arg == "-n" || arg == "--network") ≡ true

abbrev pub HasNoNetworkFlag : List String → Type 0
HasNoNetworkFlag = All (λ arg. (arg == "-n" || arg == "--network") ≡ false)

network_argument-append :
    (before rest : List String) (flag name : String)
    → HasNoNetworkFlag before
    → IsNetworkFlag flag
    → network_argument (before ++ (flag ∷ name ∷ rest)) ≡ some name
unfolding network_argument
network_argument-append [] rest flag name none_before h = ground arith
network_argument-append (arg ∷ []) rest flag name (clean, more) h = ground arith
network_argument-append (arg ∷ next ∷ before) rest flag name (clean, more) h =
    ground (arith, network_argument-append (next ∷ before) rest flag name more h)

-- The name after the first network flag, if it is not empty, replaces the variable NETWORK and no
-- other variable.
pub with_network_argument-flag :
    (before rest : List String) (flag name : String) (env : Environment)
    → HasNoNetworkFlag before
    → IsNetworkFlag flag
    → name ≢ ""
    → (with_network_argument (before ++ (flag ∷ name ∷ rest)) env "NETWORK" ≡ some name)
      × ((other : String)
          → other ≢ "NETWORK"
          → with_network_argument (before ++ (flag ∷ name ∷ rest)) env other ≡ env other)
unfolding with_network_argument
with_network_argument-flag before rest flag name env clean h nonempty = (
  ground (arith, found, eq_iff name "", eq_iff "NETWORK" "NETWORK"),
  λ other differs. ground (arith, found, eq_iff name "", eq_iff other "NETWORK"),
)
  where
    found : network_argument (before ++ (flag ∷ name ∷ rest)) ≡ some name
    found = network_argument-append before rest flag name clean h

network_argument_absent :
    (args : List String) → HasNoNetworkFlag args → network_argument args ≡ none
unfolding network_argument
network_argument_absent [] h = refl
network_argument_absent (arg ∷ []) h = refl
network_argument_absent (arg ∷ next ∷ rest) (clean, more) =
    ground (arith, network_argument_absent (next ∷ rest) more)

same_environment :
    (args : List String) (env : Environment)
    → HasNoNetworkFlag args
    → with_network_argument args env ≡ env
unfolding with_network_argument
same_environment args env clean =
    fun_ext λ name. rw (with_network_argument, network_argument_absent args clean) refl

-- Without an argument that is exactly -n or --network, the arguments of the command line have no
-- influence on the configuration: it is what the environment alone selects, which is the production
-- network where NETWORK is not set.
pub get_network_config-no_flag :
    (args : List String) (env : Environment)
    → HasNoNetworkFlag args
    → (get_network_config (with_network_argument args env) ≡ get_network_config env)
      × (env "NETWORK" ≡ none
          → get_network_config (with_network_argument args env) ≡ selected (mainnet_prod env))
unfolding get_network_config
get_network_config-no_flag args env clean =
    rw (same_environment args env clean) (refl, λ unset. ground (arith, unset))
