-- ===== src/Params/Offer.antt =====
-- scripts/cli/params/offer.ts
use on_re_sol.Base.{true, false, List, [], ◌∷◌, ◌++◌, none, some, pos}
use on_re_sol.Js.{bool, num, int}
use on_re_sol.Prompts.Types.{
  amount, basis_points, apr, timestamp, duration, boolean, no_default, literal, ParamDefinition,
  definition,
}
use on_re_sol.Params.Common.{token_pair_params}

abbrev pub make_offer_params : List ParamDefinition
make_offer_params =
    token_pair_params
    ++ ((definition "fee" basis_points "Fee in basis points" false (literal (num (int (pos 0))))
          "--fee" (some "-f"))
        ∷ (definition "needsApproval" boolean "Require approval for transactions" false
            (literal (bool false)) "--needs-approval" none)
        ∷ (definition "permissionless" boolean "Allow permissionless transactions" false
            (literal (bool true)) "--permissionless" none)
        ∷ [])

abbrev pub add_vector_params : List ParamDefinition
add_vector_params =
    token_pair_params
    ++ ((definition "baseTime" timestamp "Base time for the vector" true no_default "--base-time"
          none)
        ∷ (definition "basePrice" amount "Base price (scaled by 1e9, so 1.0 = 1000000000)" true
            (literal (num (int (pos 1_000_000_000)))) "--base-price" none)
        ∷ (definition "apr" apr "APR value (scale=6, so 1% = 10000)" true no_default "--apr" none)
        ∷ (definition "duration" duration "Price fix duration in seconds" true no_default
            "--duration" none)
        ∷ [])

abbrev pub delete_vector_params : List ParamDefinition
delete_vector_params =
    token_pair_params
    ++ ((definition "startTime" timestamp "Vector start timestamp to delete" true no_default
          "--start-time" none)
        ∷ [])

abbrev pub update_fee_params : List ParamDefinition
update_fee_params =
    token_pair_params
    ++ ((definition "fee" basis_points "New fee in basis points" true no_default "--fee"
          (some "-f"))
        ∷ [])

abbrev pub take_offer_params : List ParamDefinition
take_offer_params =
    token_pair_params
    ++ ((definition "amount" amount "Amount of token in to provide (raw, with decimals)" true
          no_default "--amount" (some "-a"))
        ∷ (definition "permissionless" boolean "Use permissionless flow" true (literal (bool false))
            "--permissionless" none)
        ∷ [])
