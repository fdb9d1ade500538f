-- ===== src/Prompts/Types.antt =====
-- scripts/cli/prompts/types.ts
use on_re_sol.Base.{[], none, some, String, Bool, List, Option}
use on_re_sol.Js.{Value}
use on_re_sol.Session.{Outcome, Platform}
use on_re_sol.Network.{NetworkConfig}

pub data ParamType : Type 0 where
  public_key mint amount basis_points apr timestamp duration boolean string select : ParamType

-- A default is a value, or is computed from the configuration.
pub data Default : Type 0 where
  no_default : Default
  literal : Value → Default
  from_config : (NetworkConfig → Value) → Default

-- The custom validation function of the source is called by nobody, and is left out.
pub record ParamDefinition : Type 0 where
  pub name : String
  pub type : ParamType
  pub description : String
  pub required : Bool
  pub default : Default
  pub flag : Option String
  pub short_flag : Option String
  pub choices : List (String × String)
  pub transform : Option (Platform → Value → Outcome Value)

-- A definition with no choices and no transformation.
abbrev pub definition :
    String → ParamType → String → Bool → Default → String → Option String → ParamDefinition
definition name ty description required d flag short_flag = record {
  name = name;
  type = ty;
  description = description;
  required = required;
  default = d;
  flag = some flag;
  short_flag = short_flag;
  choices = [];
  transform = none;
}
