-- ===== src/Params/Setup.antt =====
-- scripts/cli/params/mint-authority.ts and scripts/cli/params/init.ts
use on_re_sol.Base.{true, List, [], ◌∷◌, none, some}
use on_re_sol.Js.{str, pubkey}
use on_re_sol.Prompts.Types.{
  mint, amount, string, no_default, literal, from_config, ParamDefinition, definition,
}

abbrev pub mint_params : List ParamDefinition
mint_params =
    (definition "mint" mint "Mint address" true (from_config λ cfg. pubkey cfg.mints.onyc) "--mint"
      (some "-m"))
    ∷ (definition "amount" amount "Amount to mint" true no_default "--amount" (some "-a"))
    ∷ []

abbrev pub transfer_mint_authority_params : List ParamDefinition
transfer_mint_authority_params =
    (definition "mint" mint "Mint address" true (from_config λ cfg. pubkey cfg.mints.onyc) "--mint"
      (some "-m"))
    ∷ []

abbrev pub init_program_params : List ParamDefinition
init_program_params =
    (definition "onycMint" mint "ONyc mint address" true (from_config λ cfg. pubkey cfg.mints.onyc)
      "--onyc-mint" none)
    ∷ []

abbrev pub init_permissionless_params : List ParamDefinition
init_permissionless_params =
    (definition "name" string "Authority name (e.g., 'permissionless-1')" true
      (literal (str "permissionless-1")) "--name" none)
    ∷ []
