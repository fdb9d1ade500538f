-- ===== src/Prompts/All.antt =====
-- `promptForParams` of scripts/cli/prompts/index.ts.
use on_re_sol.Base.{
  String, ◌<>◌, Bool, true, false, not, List, [], ◌∷◌, none, some, ◌||◌, ◌&&◌, insert,
  if◌then◌else◌,
}
use on_re_sol.Js.{Value, Object, get, is_undefined}
use on_re_sol.Session.{Platform, M, pure, fail, lift, ◌>>=◌}
use on_re_sol.Network.{NetworkConfig}
use on_re_sol.Prompts.Types.{Default, no_default, ParamDefinition}
use on_re_sol.Prompts.Transform.{transform_value}
use on_re_sol.Prompts.Single.{default_value, prompt_for_single_param}

abbrev pub has_default : Default → Bool
has_default no_default = false
has_default _ = true

abbrev flag_or_name : ParamDefinition → String
flag_or_name param = elim (param.flag) [ none ↦ param.name | some f ↦ f ]

module _ (p : Platform) (cfg : NetworkConfig) (no_interactive : Bool) where
  -- One round of the loop: the value of one parameter.
  unfoldable pub param_value : ParamDefinition → Value → M Value
  param_value param provided =
      if not (is_undefined provided)
      then lift (transform_value p cfg param provided)
      else if has_default param.default && (not param.required || no_interactive)
      then pure (default_value cfg param.default)
      else if no_interactive && param.required
      then fail
          ("Missing required parameter: " <> (param.name <> (" (" <> (flag_or_name param <> ")"))))
      else prompt_for_single_param p cfg param

  unfoldable pub prompt_from : List ParamDefinition → Object → Object → M Object
  prompt_from [] provided result = pure result
  prompt_from (param ∷ params) provided result = do
    value ← param_value param (get provided param.name)
    prompt_from params provided (insert param.name value result)

  unfoldable pub prompt_for_params : List ParamDefinition → Object → M Object
  unfolding prompt_from
  prompt_for_params params provided = prompt_from params provided []
