-- ===== src/Prompts/Single.antt =====
-- `promptForSingleParam` of scripts/cli/prompts/index.ts and the prompt of each type.
use on_re_sol.Base.{
  String, ◌<>◌, false, List, [], ◌∷◌, Option, none, some, ◌==◌, pos, if◌then◌else◌,
}
use on_re_sol.Js.{
  Number, int, PublicKey, base58, equals, Value, undefined, null, bool, num, str, pubkey, truthy,
  or_else, trim, slice_from_start,
}
use on_re_sol.Session.{
  Platform, Check, accept, M, Outcome, ok, throw, pure, lift, input, number, select, confirm, ◌>>=◌,
}
use on_re_sol.Network.{NetworkConfig}
use on_re_sol.Prompts.Types.{
  ParamType, public_key, mint, amount, basis_points, apr, timestamp, duration, boolean, string,
  Default, no_default, literal, from_config, ParamDefinition,
}
use on_re_sol.Prompts.Validators.{
  validate_public_key, validate_basis_points, validate_amount, validate_apr, validate_duration,
  validate_timestamp, parse_timestamp,
}
use on_re_sol.Prompts.Transform.{new_public_key}

-- The default of a parameter; a missing one is `undefined`.
abbrev pub default_value : NetworkConfig → Default → Value
default_value cfg no_default = undefined
default_value cfg (literal v) = v
default_value cfg (from_config f) = f cfg

-- `d?.toBase58()`
abbrev pub default_base58 : Value → Outcome Value
default_base58 undefined = ok undefined
default_base58 null = ok undefined
default_base58 (pubkey k) = ok (str (base58 k))
default_base58 _ = throw "defaultValue?.toBase58 is not a function"

-- `d?.toString()`
abbrev pub default_text : Platform → Value → Value
default_text p undefined = undefined
default_text p null = undefined
default_text p v = str (p.text_of v)

abbrev pub number_or_undefined : Option Number → Value
number_or_undefined none = undefined
number_or_undefined (some x) = num x

abbrev pub short_key : PublicKey → String
short_key k = slice_from_start 8 (base58 k) <> "..."

abbrev pub mint_choices : NetworkConfig → List (String × String)
mint_choices cfg =
    ("USDC  " <> short_key cfg.mints.usdc, "usdc")
    ∷ ("ONyc  " <> short_key cfg.mints.onyc, "onyc")
    ∷ ("USDG  " <> short_key cfg.mints.usdg, "usdg")
    ∷ ("Custom address", "custom")
    ∷ []

abbrev pub default_choice : NetworkConfig → Value → Outcome String
default_choice cfg (pubkey k) =
    if equals k cfg.mints.usdc
    then ok "usdc"
    else if equals k cfg.mints.onyc
    then ok "onyc"
    else if equals k cfg.mints.usdg
    then ok "usdg"
    else ok "custom"
default_choice cfg v =
    if truthy v then throw "defaultValue.equals is not a function" else ok "custom"

-- `config.mints[selection]`
abbrev pub selected_mint : NetworkConfig → String → Value
selected_mint cfg s =
    if s == "usdc"
    then pubkey cfg.mints.usdc
    else if s == "onyc"
    then pubkey cfg.mints.onyc
    else if s == "usdg"
    then pubkey cfg.mints.usdg
    else undefined

abbrev pub default_date : Platform → Value → Outcome Value
default_date p undefined = ok (str "now")
default_date p (num x) = elim (p.iso_of_seconds (num x)) [
  | none ↦ throw "Invalid time value"
  | some s ↦ ok (str s)
]
default_date p v = ok v

abbrev pub optional_basis_points : Option Number → Check
optional_basis_points none = accept
optional_basis_points x = validate_basis_points x

module _ (p : Platform) where
  unfoldable pub prompt_key : String → Value → M Value
  prompt_key message d = do
    shown ← lift (default_base58 d)
    value ←
        input p (record { message = message; default = shown; validate = validate_public_key p })
    lift (new_public_key p (trim value))

  unfoldable pub prompt_mint : NetworkConfig → String → Value → M Value
  unfolding prompt_key
  prompt_mint cfg message d = do
    choice ← lift (default_choice cfg d)
    selection ←
        select p (record { message = message; choices = mint_choices cfg; default = str choice })
    if selection == "custom"
        then prompt_key "Enter mint address:" d
        else pure (selected_mint cfg selection)

  unfoldable pub prompt_amount : String → Value → M Value
  prompt_amount message d = do
    value ← number p (record { message = message; default = d; validate = validate_amount })
    pure (number_or_undefined value)

  unfoldable pub prompt_basis_points : String → Value → M Value
  prompt_basis_points message d = do
    value ← number p (record {
      message = message <> " (100 = 1%)";
      default = or_else d (num (int (pos 0)));
      validate = optional_basis_points;
    })
    pure (or_else (number_or_undefined value) (or_else d (num (int (pos 0)))))

  unfoldable pub prompt_apr : String → Value → M Value
  prompt_apr message d = do
    value ← number p (record {
      message = message <> " (e.g., 36500 = 3.65%)";
      default = d;
      validate = validate_apr;
    })
    pure (number_or_undefined value)

  unfoldable pub prompt_timestamp : String → Value → M Value
  prompt_timestamp message d = do
    shown ← lift (default_date p d)
    value ← input p (record {
      message = message <> " (ISO date or \"now\")";
      default = shown;
      validate = λ s. validate_timestamp p (str s);
    })
    lift (parse_timestamp p (str value))

  unfoldable pub prompt_duration : String → Value → M Value
  prompt_duration message d = do
    value ←
        number p (record {
          message = message <> " (in seconds)";
          default = d;
          validate = validate_duration;
        })
    pure (number_or_undefined value)

  abbrev pub prompt_by_type :
      NetworkConfig → ParamType → String → List (String × String) → Value → M Value
  prompt_by_type cfg public_key message choices d = prompt_key message d
  prompt_by_type cfg mint message choices d = prompt_mint cfg message d
  prompt_by_type cfg amount message choices d = prompt_amount message d
  prompt_by_type cfg basis_points message choices d = prompt_basis_points message d
  prompt_by_type cfg apr message choices d = prompt_apr message d
  prompt_by_type cfg timestamp message choices d = prompt_timestamp message d
  prompt_by_type cfg duration message choices d = prompt_duration message d
  prompt_by_type cfg boolean message choices d = do
    value ← confirm p (record { message = message; default = or_else d (bool false) })
    pure (bool value)
  prompt_by_type cfg ParamType.select message choices d = do
    value ← select p (record { message = message; choices = choices; default = d })
    pure (str value)
  prompt_by_type cfg string message choices d = do
    value ←
        input p (record { message = message; default = default_text p d; validate = λ _. accept })
    pure (str value)

  unfoldable pub prompt_for_single_param : NetworkConfig → ParamDefinition → M Value
  prompt_for_single_param cfg param =
      prompt_by_type cfg param.type param.description param.choices
        (default_value cfg param.default)
