-- ===== src/Network/Isolation.antt =====
-- scripts/utils/network-config.ts: the table of configurations.
use text.Mathlib.Text.{starts_with}
use on_re_sol.Base.{String, Bool, ◌==◌, ◌≡◌, ◌||◌, refl, All, if◌then◌else◌}
use on_re_sol.Js.{PublicKey, equals}
use on_re_sol.Network.{
  NetworkConfig, Environment, network_configs, prod_squad, prod_program_id, prod_mints,
  mainnet_rpc_url, devnet_rpc_url,
}

-- A key of the production set-up.
abbrev pub is_production_key : PublicKey → Bool
is_production_key k =
    equals k prod_squad
    || equals k prod_program_id
    || equals k prod_mints.usdc
    || equals k prod_mints.onyc
    || equals k prod_mints.usdg

abbrev pub uses_production : NetworkConfig → Bool
uses_production c =
    is_production_key c.boss
    || is_production_key c.program_id
    || is_production_key c.mints.usdc
    || is_production_key c.mints.onyc
    || is_production_key c.mints.usdg

abbrev pub IsIsolated : Environment → String × NetworkConfig → Type 0
IsIsolated env (name, c) =
    (c.name ≡ name)
    × (uses_production c ≡ (name == "mainnet-prod"))
    × (c.rpc_url ≡ (if starts_with name "devnet" then devnet_rpc_url env else mainnet_rpc_url env))

-- Every configuration is listed under its own name, uses a program, a boss or a mint of the
-- production set-up exactly if it is mainnet-prod, and talks to the devnet node exactly if its name
-- begins with devnet.
pub network_configs-IsIsolated : (env : Environment) → All (IsIsolated env) (network_configs env)
unfolding network_configs
network_configs-IsIsolated env = (
  (refl, refl, refl),
  ((refl, refl, refl), ((refl, refl, refl), ((refl, refl, refl), ((refl, refl, refl), tt)))),
)
