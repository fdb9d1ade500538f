-- ===== src/Params/Common.antt =====
-- scripts/cli/params/common.ts
use on_re_sol.Base.{true, List, [], ◌∷◌, some}
use on_re_sol.Js.{pubkey}
use on_re_sol.Prompts.Types.{mint, amount, no_default, from_config, ParamDefinition, definition}

abbrev pub token_pair_params : List ParamDefinition
token_pair_params =
    (definition "tokenIn" mint "Token in mint (e.g., USDC)" true
      (from_config λ cfg. pubkey cfg.mints.usdc) "--token-in" (some "-i"))
    ∷ (definition "tokenOut" mint "Token out mint (e.g., ONyc)" true
        (from_config λ cfg. pubkey cfg.mints.onyc) "--token-out" (some "-o"))
    ∷ []

abbrev pub vault_params : List ParamDefinition
vault_params =
    (definition "tokenMint" mint "Token mint to deposit/withdraw" true no_default "--token"
      (some "-t"))
    ∷ (definition "amount" amount "Amount (raw, with decimals)" true no_default "--amount"
        (some "-a"))
    ∷ []
