-- ===== src/Tests/Prompts.antt =====
-- The prompts at concrete inputs.
use on_re_sol.Base.{
  arith, List, [], ◌∷◌, All, ◌≡◌, refl, some, none, pos, true, false, insert, lookup,
}
use on_re_sol.Js.{lower_is, Object, int, num, str, pubkey, get}
use on_re_sol.Session.{ok, ◌>>=◌, answer, number}
use on_re_sol.Prompts.Types.{ParamDefinition, basis_points, mint, no_default}
use on_re_sol.Prompts.Validators.{validate_basis_points}
use on_re_sol.Prompts.Transform.{transform_value}
use on_re_sol.Prompts.Flags.{transform_value-selected_mint}
use on_re_sol.Prompts.Single.{selected_mint, prompt_for_single_param, prompt_basis_points}
use on_re_sol.Prompts.All.{param_value, prompt_from, prompt_for_params}
use on_re_sol.Prompts.Resolved.{AreResolved, prompt_for_params-AreResolved}
use on_re_sol.Params.WellFormed.{IsWellFormed, param_tables, param_tables-IsWellFormed}
use on_re_sol.Tests.Fixtures.{cfg, p, p-IsPrompting, w}

param_tables-IsWellFormed_example : All (IsWellFormed cfg) param_tables
param_tables-IsWellFormed_example = param_tables-IsWellFormed cfg

abbrev fee_param : ParamDefinition
fee_param = record {
  name = "fee";
  type = basis_points;
  description = "New fee in basis points";
  required = true;
  default = no_default;
  flag = some "--fee";
  short_flag = some "-f";
  choices = [];
  transform = none;
}

-- The token in is given, the token out takes its default, and the fee is prompted for.
abbrev fee_options : Object
fee_options = ("tokenIn", str "usdg") ∷ []

abbrev fee_result : Object
fee_result = ("tokenIn", pubkey cfg.mints.usdg) ∷ ("fee", num (int (pos 7))) ∷ []

abbrev mint_param : ParamDefinition
mint_param = record {
  name = "tokenIn";
  type = mint;
  description = "Token in mint (e.g., USDC)";
  required = true;
  default = no_default;
  flag = some "--token-in";
  short_flag = some "-i";
  choices = [];
  transform = none;
}

abbrev two_params : List ParamDefinition
two_params = mint_param ∷ fee_param ∷ []

prompted_result : (prompt_for_params p cfg false two_params fee_options w).0 ≡ ok fee_result
unfolding prompt_for_params prompt_from param_value prompt_for_single_param prompt_basis_points
    number answer ◌>>=◌ validate_basis_points transform_value get insert lookup lower_is
prompted_result = refl

prompt_for_params-AreResolved_example : AreResolved p cfg false fee_options two_params fee_result
prompt_for_params-AreResolved_example =
    prompt_for_params-AreResolved p cfg false p-IsPrompting two_params fee_options w fee_result
      ((refl, tt), (tt, tt)) ((λ h. cc), ((λ h. (0, refl, omega arith)), tt)) prompted_result

transform_value-selected_mint_example :
    transform_value p cfg mint_param (str "onyc") ≡ ok (selected_mint cfg "onyc")
transform_value-selected_mint_example =
    transform_value-selected_mint p cfg mint_param refl refl "onyc" refl refl
