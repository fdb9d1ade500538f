-- ===== src/Prompts/Calm.antt =====
-- scripts/cli/prompts: the effects of filling in parameters.
use on_re_sol.Base.{String, Bool, List, [], ◌∷◌, not, ◌&&◌, ◌||◌, ◌==◌}
use on_re_sol.Js.{Value, Object, get, is_undefined}
use on_re_sol.Session.{Platform, Keeps, Keeps-if}
use on_re_sol.Session.Calm.{
  Quiet, of_pure, of_bind, of_option_lem, of_show, of_exit, of_input, of_number, of_select,
  of_confirm,
}
use on_re_sol.Network.{NetworkConfig}
use on_re_sol.Prompts.Types.{
  ParamType, public_key, mint, amount, basis_points, apr, timestamp, duration, boolean, string,
  ParamDefinition,
}
use on_re_sol.Prompts.Single.{
  default_value, prompt_key, prompt_mint, prompt_amount, prompt_basis_points, prompt_apr,
  prompt_timestamp, prompt_duration, prompt_by_type, prompt_for_single_param,
}
use on_re_sol.Prompts.All.{has_default, param_value, prompt_from, prompt_for_params}

pub ruleset calm =
    (of_pure, of_bind, of_option_lem, of_show, of_exit, of_input, of_number, of_select, of_confirm)

module _ (p : Platform) (cfg : NetworkConfig) where
  prompt_key-Quiet : (message : String) (d : Value) → Keeps Quiet (prompt_key p message d)
  unfolding prompt_key
  prompt_key-Quiet message d = search calm

  prompt_by_type-Quiet :
      (ty : ParamType) (message : String) (choices : List (String × String)) (d : Value)
      → Keeps Quiet (prompt_by_type p cfg ty message choices d)
  unfolding prompt_mint prompt_amount prompt_basis_points prompt_apr prompt_timestamp
      prompt_duration
  prompt_by_type-Quiet public_key message choices d = prompt_key-Quiet message d
  prompt_by_type-Quiet mint message choices d = of_bind of_pure λ choice.
      of_bind (of_select p _) λ selection.
        Keeps-if (selection == "custom") (λ _. prompt_key-Quiet "Enter mint address:" d)
          (λ _. of_pure)
  prompt_by_type-Quiet amount message choices d = search calm
  prompt_by_type-Quiet basis_points message choices d = search calm
  prompt_by_type-Quiet apr message choices d = search calm
  prompt_by_type-Quiet timestamp message choices d = search calm
  prompt_by_type-Quiet duration message choices d = search calm
  prompt_by_type-Quiet boolean message choices d = search calm
  prompt_by_type-Quiet string message choices d = search calm
  prompt_by_type-Quiet ParamType.select message choices d = search calm

  module _ (no_interactive : Bool) where
    param_value-Quiet :
        (param : ParamDefinition) (x : Value)
        → Keeps Quiet (param_value p cfg no_interactive param x)
    unfolding param_value prompt_for_single_param
    param_value-Quiet param x =
        Keeps-if (not (is_undefined x)) (λ _. of_pure)
          λ _.
            Keeps-if (has_default param.default && (not param.required || no_interactive))
              (λ _. of_pure)
              λ _.
                Keeps-if (no_interactive && param.required) (λ _. of_pure)
                  λ _.
                    prompt_by_type-Quiet param.type param.description param.choices
                      (default_value cfg param.default)

    prompt_from-Quiet :
        (params : List ParamDefinition) (provided result : Object)
        → Keeps Quiet (prompt_from p cfg no_interactive params provided result)
    unfolding prompt_from
    prompt_from-Quiet [] provided result = of_pure
    prompt_from-Quiet (param ∷ params) provided result =
        of_bind (param_value-Quiet param (get provided param.name))
          λ value. prompt_from-Quiet params provided _

    pub prompt_for_params-Quiet :
        (params : List ParamDefinition) (provided : Object)
        → Keeps Quiet (prompt_for_params p cfg no_interactive params provided)
    unfolding prompt_for_params
    prompt_for_params-Quiet params provided = prompt_from-Quiet params provided []
