-- ===== src/Prompts/Transform.antt =====
-- `transformValue` of scripts/cli/prompts/index.ts: a value given on the command line.
use on_re_sol.Base.{String, none, some, ◌==◌, ◌||◌, if◌then◌else◌}
use on_re_sol.Js.{Value, bool, num, str, pubkey, truthy, lower_is, parse_int}
use on_re_sol.Session.{Platform, Outcome, ok, throw}
use on_re_sol.Network.{NetworkConfig}
use on_re_sol.Prompts.Types.{
  ParamType, public_key, mint, amount, basis_points, apr, timestamp, duration, boolean, string,
  select, ParamDefinition,
}
use on_re_sol.Prompts.Validators.{parse_timestamp}

-- `new PublicKey(s)`
abbrev pub new_public_key : Platform → String → Outcome Value
new_public_key p s = elim (p.parse_key s) [
  | none ↦ throw "Invalid public key input"
  | some k ↦ ok (pubkey k)
]

-- `parseInt(v, 10)` reads the text of v.
abbrev pub parse_int_value : Platform → Value → Value
parse_int_value p (str s) = num (parse_int s)
parse_int_value p v = num (parse_int (p.text_of v))

abbrev pub to_key : Platform → Value → Outcome Value
to_key p (str s) = new_public_key p s
to_key p v = ok v

abbrev pub to_mint : Platform → NetworkConfig → Value → Outcome Value
to_mint p cfg (str s) =
    if lower_is s "usdc"
    then ok (pubkey cfg.mints.usdc)
    else if lower_is s "onyc"
    then ok (pubkey cfg.mints.onyc)
    else if lower_is s "usdg"
    then ok (pubkey cfg.mints.usdg)
    else new_public_key p s
to_mint p cfg v = ok v

abbrev pub to_number : Value → Outcome Value
to_number (str s) = ok (num (parse_int s))
to_number v = ok v

abbrev pub to_bool : Value → Outcome Value
to_bool (str s) = ok (bool (lower_is s "true" || s == "1"))
to_bool v = ok (bool (truthy v))

abbrev by_type : Platform → NetworkConfig → ParamType → Value → Outcome Value
by_type p cfg public_key v = to_key p v
by_type p cfg mint v = to_mint p cfg v
by_type p cfg timestamp v = parse_timestamp p v
by_type p cfg amount v = to_number v
by_type p cfg basis_points v = to_number v
by_type p cfg apr v = to_number v
by_type p cfg duration v = to_number v
by_type p cfg boolean v = to_bool v
by_type p cfg string v = ok v
by_type p cfg select v = ok v

unfoldable pub transform_value : Platform → NetworkConfig → ParamDefinition → Value → Outcome Value
transform_value p cfg param v = elim (param.transform) [
  | some f ↦ f p v
  | none ↦ by_type p cfg param.type v
]
