-- ===== src/Params/Redemption.antt =====
-- scripts/cli/params/redemption.ts
use on_re_sol.Base.{
  true, false, List, [], ◌∷◌, ◌++◌, none, some, pos, ◌==◌, not, ◌||◌, if◌then◌else◌,
}
use on_re_sol.Js.{Value, undefined, num, int, str, pubkey, trim, truthy}
use on_re_sol.Session.{Platform, Outcome, ok}
use on_re_sol.Prompts.Types.{
  mint, amount, basis_points, string, no_default, literal, from_config, ParamDefinition, definition,
}
use on_re_sol.Prompts.Transform.{parse_int_value, new_public_key}

abbrev pub redemption_token_pair_params : List ParamDefinition
redemption_token_pair_params =
    (definition "tokenIn" mint "Token in mint (ONyc for redemptions)" true
      (from_config λ cfg. pubkey cfg.mints.onyc) "--token-in" (some "-i"))
    ∷ (definition "tokenOut" mint "Token out mint (USDC for redemptions)" true
        (from_config λ cfg. pubkey cfg.mints.usdc) "--token-out" (some "-o"))
    ∷ []

abbrev pub redemption_offer_params : List ParamDefinition
redemption_offer_params =
    redemption_token_pair_params
    ++ ((definition "fee" basis_points "Redemption fee in basis points" false
          (literal (num (int (pos 0)))) "--fee" (some "-f"))
        ∷ [])

abbrev pub create_request_params : List ParamDefinition
create_request_params =
    redemption_token_pair_params
    ++ ((definition "amount" amount "Amount of tokens to redeem" true no_default "--amount"
          (some "-a"))
        ∷ [])

abbrev request_id_param : ParamDefinition
request_id_param = record {
  name = "requestId";
  type = string;
  description = "Redemption request ID";
  required = true;
  default = no_default;
  flag = some "--request-id";
  short_flag = none;
  choices = [];
  transform = some λ p v. ok (parse_int_value p v);
}

abbrev pub request_params : List ParamDefinition
request_params = redemption_token_pair_params ++ (request_id_param ∷ [])

abbrev pub update_redemption_fee_params : List ParamDefinition
update_redemption_fee_params =
    redemption_token_pair_params
    ++ ((definition "fee" basis_points "New redemption fee in basis points" true no_default "--fee"
          (some "-f"))
        ∷ [])

-- Empty values become `undefined`, texts are read as keys.
abbrev redeemer_of : Platform → Value → Outcome Value
redeemer_of p (str s) =
    if not (truthy (str s)) || trim s == "" then ok undefined else new_public_key p (trim s)
redeemer_of p v = if truthy v then ok v else ok undefined

abbrev redeemer_param : ParamDefinition
redeemer_param = record {
  name = "redeemer";
  type = string;
  description = "Filter by redeemer address (leave empty for all)";
  required = false;
  default = no_default;
  flag = some "--redeemer";
  short_flag = some "-r";
  choices = [];
  transform = some redeemer_of;
}

abbrev pub list_requests_params : List ParamDefinition
list_requests_params = redemption_token_pair_params ++ (redeemer_param ∷ [])
