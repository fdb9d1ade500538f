-- ===== src/Params/WellFormed.antt =====
-- scripts/cli/params: the tables, and the conditions of `promptForParams` on them.
use on_re_sol.Base.{
  Bool, true, false, not, ◌&&◌, ◌||◌, List, [], ◌∷◌, pos, ◌==◌, ◌≡◌, refl, ap, arith, All, all, leb,
  negsuc,
}
use on_re_sol.Js.{
  Value, num, int, or_else, undefined, null, bool, str, pubkey, big, nan, infinity, neg_infinity,
  frac,
}
use on_re_sol.Network.{NetworkConfig}
use on_re_sol.Prompts.Types.{ParamType, basis_points, ParamDefinition}
use on_re_sol.Prompts.Single.{default_value}
use on_re_sol.Prompts.Checked.{HasType}
use on_re_sol.Prompts.Resolved.{HasDistinctNames, HasFeeDefault}
use on_re_sol.Params.Common.{token_pair_params, vault_params}
use on_re_sol.Params.Offer.{
  make_offer_params, add_vector_params, delete_vector_params, update_fee_params, take_offer_params,
}
use on_re_sol.Params.Redemption.{
  redemption_token_pair_params, redemption_offer_params, create_request_params, request_params,
  update_redemption_fee_params, list_requests_params,
}
use on_re_sol.Params.Setup.{
  mint_params, transfer_mint_authority_params, init_program_params, init_permissionless_params,
}
use on_re_sol.Params.Authority.{
  propose_boss_params, accept_boss_params, admin_params, approver_params, set_onyc_mint_params,
  max_supply_params, redemption_admin_params,
}

abbrev is_fee : Value → Bool
is_fee (num (int (pos n))) = leb n 10000
is_fee _ = false

is_fee_lem : (v : Value) → is_fee v ≡ true → HasType basis_points v
is_fee_lem (num (int (pos n))) h = (n, refl, ground arith)
is_fee_lem (num (int (negsuc n))) h = cc
is_fee_lem (num nan) h = cc
is_fee_lem (num infinity) h = cc
is_fee_lem (num neg_infinity) h = cc
is_fee_lem (num (frac z tag)) h = cc
is_fee_lem undefined h = cc
is_fee_lem null h = cc
is_fee_lem (bool b) h = cc
is_fee_lem (str s) h = cc
is_fee_lem (pubkey k) h = cc
is_fee_lem (big z) h = cc

abbrev is_basis_points : ParamType → Bool
is_basis_points basis_points = true
is_basis_points _ = false

abbrev has_fee_default : NetworkConfig → ParamDefinition → Bool
has_fee_default cfg param =
    not (is_basis_points param.type)
    || is_fee (or_else (default_value cfg param.default) (num (int (pos 0))))

abbrev has_distinct_names : List ParamDefinition → Bool
has_distinct_names [] = true
has_distinct_names (param ∷ params) =
    all (λ other. not (param.name == other.name)) params && has_distinct_names params

has_fee_default_lem :
    (cfg : NetworkConfig) (param : ParamDefinition)
    → has_fee_default cfg param ≡ true
    → HasFeeDefault cfg param
has_fee_default_lem cfg param h e = is_fee_lem _ (fee (ap is_basis_points e))
  where
    fee :
        is_basis_points param.type ≡ true
        → is_fee (or_else (default_value cfg param.default) (num (int (pos 0)))) ≡ true
    fee k = ground arith

all_fees :
    (cfg : NetworkConfig) (params : List ParamDefinition)
    → all (has_fee_default cfg) params ≡ true
    → All (HasFeeDefault cfg) params
all_fees cfg [] h = tt
all_fees cfg (param ∷ params) h =
    (has_fee_default_lem cfg param (ground arith), all_fees cfg params (ground arith))

apart :
    (param : ParamDefinition) (others : List ParamDefinition)
    → all (λ other. not (param.name == other.name)) others ≡ true
    → All (λ other. (param.name == other.name) ≡ false) others
apart param [] h = tt
apart param (other ∷ others) h = (ground arith, apart param others (ground arith))

distinct :
    (params : List ParamDefinition) → has_distinct_names params ≡ true → HasDistinctNames params
distinct [] h = tt
distinct (param ∷ params) h = (apart param params (ground arith), distinct params (ground arith))

-- The tables of all the subcommands.
abbrev pub param_tables : List (List ParamDefinition)
param_tables =
    token_pair_params ∷ vault_params ∷ make_offer_params ∷ add_vector_params ∷ delete_vector_params
    ∷ update_fee_params ∷ take_offer_params ∷ redemption_token_pair_params ∷ redemption_offer_params
    ∷ create_request_params ∷ request_params ∷ update_redemption_fee_params ∷ list_requests_params
    ∷ propose_boss_params ∷ accept_boss_params ∷ admin_params ∷ approver_params
    ∷ set_onyc_mint_params ∷ max_supply_params ∷ redemption_admin_params ∷ mint_params
    ∷ transfer_mint_authority_params ∷ init_program_params ∷ init_permissionless_params ∷ []

abbrev pub IsWellFormed : NetworkConfig → List ParamDefinition → Type 0
IsWellFormed cfg params = HasDistinctNames params × All (HasFeeDefault cfg) params

well_formed :
    (cfg : NetworkConfig) (params : List ParamDefinition)
    → (has_distinct_names params && all (has_fee_default cfg) params) ≡ true
    → IsWellFormed cfg params
well_formed cfg params h = (distinct params (ground arith), all_fees cfg params (ground arith))

every :
    (cfg : NetworkConfig) (tables : List (List ParamDefinition))
    → all (λ params. has_distinct_names params && all (has_fee_default cfg) params) tables ≡ true
    → All (IsWellFormed cfg) tables
every cfg [] h = tt
every cfg (params ∷ tables) h =
    (well_formed cfg params (ground arith), every cfg tables (ground arith))

-- In every configuration no table of parameters names one twice, and the default of a fee in it,
-- or 0 where there is none, is a whole number of basis points up to 10000.
pub param_tables-IsWellFormed : (cfg : NetworkConfig) → All (IsWellFormed cfg) param_tables
param_tables-IsWellFormed cfg = every cfg param_tables refl
