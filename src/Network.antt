-- ===== src/Network.antt =====
-- scripts/utils/network-config.ts, and the early network argument of scripts/cli/index.ts (lines
-- 5 to 9). `process.env` is a function of the variable's name.
pub mod Selection
pub mod Isolation
use on_re_sol.Base.{
  String, ◌<>◌, Bool, List, [], ◌∷◌, Option, none, some, ◌==◌, ◌||◌, lookup, if◌then◌else◌, any,
}
use on_re_sol.Js.{PublicKey, key}

pub record Mints : Type 0 where
  pub usdc : PublicKey
  pub onyc : PublicKey
  pub usdg : PublicKey

pub record NetworkConfig : Type 0 where
  pub name : String
  pub rpc_url : String
  pub program_id : PublicKey
  pub boss : PublicKey
  pub mints : Mints

abbrev pub Environment : Type 0
Environment = String → Option String

-- `process.env.X || d`: an empty variable counts as not set.
abbrev pub env_or : Environment → String → String → String
env_or env name d = elim (env name) [ none ↦ d | some s ↦ if s == "" then d else s ]

abbrev pub mainnet_rpc_url : Environment → String
mainnet_rpc_url env = env_or env "SOL_MAINNET_RPC_URL" "https://api.mainnet-beta.solana.com"

abbrev pub devnet_rpc_url : Environment → String
devnet_rpc_url env = env_or env "SOL_DEVNET_RPC_URL" "https://api.devnet.solana.com"

abbrev pub prod_squad : PublicKey
prod_squad = key "45YnzauhsBM8CpUz96Djf8UG5vqq2Dua62wuW9H3jaJ5"

abbrev pub dev_squad : PublicKey
dev_squad = key "7rzEKejyAXJXMkGfRhMV9Vg1k7tFznBBEFu3sfLNz8LC"

abbrev pub devnet_squad : PublicKey
devnet_squad = key "EVdiVScB7LX1P3bn7ZLmLJTBrSSgRXPqRU3bVxrEpRb5"

abbrev pub prod_program_id : PublicKey
prod_program_id = key "onreuGhHHgVzMWSkj2oQDLDtvvGvoepBPkqyaubFcwe"

abbrev pub test_program_id : PublicKey
test_program_id = key "J24jWEosQc5jgkdPm3YzNgzQ54CqNKkhzKy56XXJsLo2"

abbrev pub dev_program_id : PublicKey
dev_program_id = key "devHfQHgiFNifkLW49RCXpyTUZMyKuBNnFSbrQ8XsbX"

abbrev pub prod_mints : Mints
prod_mints = record {
  usdc = key "EPjFWdd5AufqSSqeM2qN1xzybapC8G4wEGGkZwyTDt1v";
  onyc = key "5Y8NV33Vv7WbnLfq3zBcKSdYPrk7g2KoiQoe7M2tcxp5";
  usdg = key "2u1tszSeqZ3qBWF3uNGPFc8TzMk2tdiwknnRMWGWjGWH";
}

abbrev pub test_mints : Mints
test_mints = record {
  usdc = key "6ioCVbecopp6AfrPvzgZdtoaftMq4hXouDun2ekkkVvt";
  onyc = key "5Uzafw84V9rCTmYULqdJA115K6zHP16vR15zrcqa6r6C";
  usdg = key "Fuisp2hZfWdqZJoRjbfoTR47DnvB8gVJFJp2ANstzbDc";
}

abbrev pub devnet_mints : Mints
devnet_mints = record {
  usdc = key "2eW3HJzbgrCnV1fd7dUbyPj5T95D35oBPcJyfXtoGNrw";
  onyc = key "6WLYBF2o3RSkZ9SoNhhFYxUPYzLaa83xSTZ3o46cg4CN";
  usdg = key "HyVoVvMHRr6p1FfGSWrWDPk6bn4FAmCjajzv6SY3DHk";
}

abbrev pub mainnet_prod : Environment → NetworkConfig
mainnet_prod env = record {
  name = "mainnet-prod";
  rpc_url = mainnet_rpc_url env;
  program_id = prod_program_id;
  boss = prod_squad;
  mints = prod_mints;
}

abbrev pub mainnet_test : Environment → NetworkConfig
mainnet_test env = record {
  name = "mainnet-test";
  rpc_url = mainnet_rpc_url env;
  program_id = test_program_id;
  boss = dev_squad;
  mints = test_mints;
}

abbrev pub mainnet_dev : Environment → NetworkConfig
mainnet_dev env = record {
  name = "mainnet-dev";
  rpc_url = mainnet_rpc_url env;
  program_id = dev_program_id;
  boss = dev_squad;
  mints = test_mints;
}

abbrev pub devnet_test : Environment → NetworkConfig
devnet_test env = record {
  name = "devnet-test";
  rpc_url = devnet_rpc_url env;
  program_id = test_program_id;
  boss = devnet_squad;
  mints = devnet_mints;
}

abbrev pub devnet_dev : Environment → NetworkConfig
devnet_dev env = record {
  name = "devnet-dev";
  rpc_url = devnet_rpc_url env;
  program_id = dev_program_id;
  boss = devnet_squad;
  mints = devnet_mints;
}

-- `NETWORK_CONFIGS`, in the order of the source.
unfoldable pub network_configs : Environment → List (String × NetworkConfig)
network_configs env =
    ("mainnet-prod", mainnet_prod env)
    ∷ ("mainnet-test", mainnet_test env)
    ∷ ("mainnet-dev", mainnet_dev env)
    ∷ ("devnet-test", devnet_test env)
    ∷ ("devnet-dev", devnet_dev env)
    ∷ []

-- The names that every object inherits: `NETWORK_CONFIGS[name]` is a truthy function or object
-- there, and no configuration.
unfoldable pub is_inherited : String → Bool
is_inherited name =
    any (λ k. k == name)
      ("constructor" ∷ "__defineGetter__" ∷ "__defineSetter__" ∷ "hasOwnProperty"
        ∷ "__lookupGetter__" ∷ "__lookupSetter__" ∷ "isPrototypeOf" ∷ "propertyIsEnumerable"
        ∷ "toString" ∷ "valueOf" ∷ "__proto__" ∷ "toLocaleString" ∷ [])

-- A configuration, an inherited member in its place, or the exception of line 144.
pub data Selected : Type 0 where
  selected : NetworkConfig → Selected
  inherited : String → Selected
  invalid : String → Selected

unfoldable pub find_config : Environment → String → Selected
find_config env name = elim (lookup name (network_configs env)) [
  | some c ↦ selected c
  | none ↦
      if is_inherited name
      then inherited name
      else invalid (
          "Invalid NETWORK environment variable: \""
          <> (name
              <> ("\". "
                  <> "Valid values are: mainnet-prod, mainnet-test, mainnet-dev, devnet-test, devnet-dev")))
]

unfoldable pub get_network_config : Environment → Selected
get_network_config env = elim (env "NETWORK") [
  | none ↦ selected (mainnet_prod env)
  | some name ↦ if name == "" then selected (mainnet_prod env) else find_config env name
]

-- `args.findIndex(…)` and `args[i + 1]`: what follows the first network flag.
unfoldable pub network_argument : List String → Option String
network_argument [] = none
network_argument (arg ∷ []) = none
network_argument (arg ∷ next ∷ rest) =
    let later = network_argument (next ∷ rest) in
    if arg == "-n" || arg == "--network" then some next else later

-- Lines 5 to 9 of scripts/cli/index.ts: an empty argument leaves the variable as it was.
unfoldable pub with_network_argument : List String → Environment → Environment
unfolding network_argument
with_network_argument args env name = elim (network_argument args) [
  | none ↦ env name
  | some network ↦
      if network == "" then env name else if name == "NETWORK" then some network else env name
]
