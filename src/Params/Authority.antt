-- ===== src/Params/Authority.antt =====
-- scripts/cli/params/state.ts
use on_re_sol.Base.{true, List, [], ◌∷◌, none}
use on_re_sol.Js.{pubkey}
use on_re_sol.Prompts.Types.{
  public_key, mint, amount, no_default, from_config, ParamDefinition, definition,
}

abbrev pub propose_boss_params : List ParamDefinition
propose_boss_params =
    (definition "newBoss" public_key "New boss public key" true no_default "--new-boss" none) ∷ []

abbrev pub accept_boss_params : List ParamDefinition
accept_boss_params =
    (definition "newBoss" public_key "New boss public key (must match proposed boss)" true
      no_default "--new-boss" none)
    ∷ []

abbrev pub admin_params : List ParamDefinition
admin_params =
    (definition "admin" public_key "Admin public key" true no_default "--admin" none) ∷ []

abbrev pub approver_params : List ParamDefinition
approver_params =
    (definition "approver" public_key "Approver public key" true no_default "--approver" none) ∷ []

abbrev pub set_onyc_mint_params : List ParamDefinition
set_onyc_mint_params =
    (definition "mint" mint "ONyc mint address" true (from_config λ cfg. pubkey cfg.mints.onyc)
      "--mint" none)
    ∷ []

abbrev pub max_supply_params : List ParamDefinition
max_supply_params =
    (definition "amount" amount "Maximum supply amount (raw, with 9 decimals)" true no_default
      "--amount" none)
    ∷ []

abbrev pub redemption_admin_params : List ParamDefinition
redemption_admin_params =
    (definition "redemptionAdmin" public_key "Redemption admin public key" true no_default
      "--redemption-admin" none)
    ∷ []
