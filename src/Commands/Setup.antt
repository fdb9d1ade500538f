-- ===== src/Commands/Setup.antt =====
-- scripts/cli/implementations/mint-authority and scripts/cli/implementations/init: the commands about initialisation and minting.
use on_re_sol.Base.{◌<>◌, true, not, [], ◌∷◌, none, some, if◌then◌else◌}
use on_re_sol.Js.{slice_from_start, base58, Object, get, undefined, str, pubkey}
use on_re_sol.Session.{Platform, line, M, pure, lift, show, ◌>>=◌, ◌>>◌}
use on_re_sol.Network.{NetworkConfig}
use on_re_sol.Tokens.{get_token_program_id}
use on_re_sol.Helper.Addresses.{mint_authority_pda, program_data_pda, get_boss}
use on_re_sol.Commands.Wrapper.{
  is_json, is_dry_run, base58_of, execute_command, build_and_handle_transaction,
  confirm_dangerous_operation,
}
use on_re_sol.Params.Setup.{
  mint_params, transfer_mint_authority_params, init_program_params, init_permissionless_params,
}
use on_re_sol.Helper.Setup.{
  build_initialize_ix, build_initialize_permissionless_authority_ix,
  build_transfer_mint_authority_to_program_ix, build_transfer_mint_authority_to_boss_ix,
  build_mint_to_ix,
}

module _ (p : Platform) (cfg : NetworkConfig) (opts : Object) where
  unfoldable pub execute_mint_authority_to_boss : M (Unit {0})
  execute_mint_authority_to_boss = execute_command p cfg opts mint_params λ params. do
    address ← base58_of (get params "mint")
    build_and_handle_transaction p cfg opts
        (record {
          title = "Transfer Mint Authority to Boss";
          description = some (
              "Transfers mint authority of "
              <> (slice_from_start 12 address <> "... back to boss"));
          payer = undefined;
          param_summary = some (
            "\nTransferring mint authority to boss:",
            ("mint", get params "mint") ∷ ("targetAuthority", str "boss") ∷ [],
          );
        })
        (do
          boss ← get_boss p cfg
          token_program ← lift (get_token_program_id cfg (get params "mint"))
          ix ←
              build_transfer_mint_authority_to_boss_ix p cfg (get params "mint")
                (pubkey token_program) (pubkey boss)
          pure (ix ∷ []))

  unfoldable pub execute_mint_to : M (Unit {0})
  execute_mint_to = execute_command p cfg opts mint_params λ params. do
    address ← base58_of (get params "mint")
    build_and_handle_transaction p cfg opts
        (record {
          title = "Mint To Transaction";
          description = some (
              "Mints "
              <> (p.text_of (get params "amount")
                  <> (" tokens of " <> (slice_from_start 12 address <> "... to boss"))));
          payer = undefined;
          param_summary = some (
            "Minting tokens to boss:",
            ("mint", get params "mint") ∷ ("amount", get params "amount") ∷ [],
          );
        })
        (do ix ← build_mint_to_ix p cfg (get params "amount"); pure (ix ∷ []))

  unfoldable pub execute_mint_authority_to_program : M (Unit {0})
  execute_mint_authority_to_program =
      execute_command p cfg opts transfer_mint_authority_params λ params. do
        if is_json opts then pure tt else (do
          show (line "\nTransferring mint authority:")
          shown ← base58_of (get params "mint")
          show (line ("  Mint:              " <> shown))
          show (line ("  Target Authority:  " <> base58 (mint_authority_pda p cfg)))
          show (line ""))
        confirmed ←
            (if not (is_dry_run opts)
              then (do
                confirm_dangerous_operation p
                    "This will generate a transaction to transfer mint authority to the program. Continue?"
                    none)
              else pure true)
        if confirmed
            then (do
              address ← base58_of (get params "mint")
              build_and_handle_transaction p cfg opts
                  (record {
                    title = "Transfer Mint Authority to Program";
                    description = some (
                        "Transfers mint authority of "
                        <> (slice_from_start 12 address <> "... to program PDA"));
                    payer = undefined;
                    param_summary = none;
                  })
                  (do
                    boss ← get_boss p cfg
                    token_program ← lift (get_token_program_id cfg (get params "mint"))
                    ix ←
                        build_transfer_mint_authority_to_program_ix p cfg (get params "mint")
                          (pubkey token_program) (pubkey boss)
                    pure (ix ∷ [])))
            else show (line "\nOperation cancelled.")

  unfoldable pub execute_init_program : M (Unit {0})
  execute_init_program = execute_command p cfg opts init_program_params λ params. do
    if is_json opts then pure tt else (do
      show (line "\nProgram initialization details:")
      show (line ("  Program ID:    " <> base58 cfg.program_id))
      shown ← base58_of (get params "onycMint")
      show (line ("  ONyc Mint:     " <> shown))
      show (line ("  Program Data:  " <> base58 (program_data_pda p cfg)))
      show (line ("  Boss:          " <> base58 cfg.boss))
      show (line ""))
    confirmed ←
        (if not (is_dry_run opts)
          then (do
            confirm_dangerous_operation p "This will initialize the program state. Continue?" none)
          else pure true)
    if confirmed
        then (do
          build_and_handle_transaction p cfg opts
              (record {
                title = "Initialize Program Transaction";
                description = some ("Initializes the program state account");
                payer = pubkey cfg.boss;
                param_summary = none;
              })
              (do
                ix ←
                    build_initialize_ix p cfg (pubkey cfg.boss) (pubkey (program_data_pda p cfg))
                      (get params "onycMint")
                pure (ix ∷ [])))
        else show (line "\nOperation cancelled.")

  unfoldable pub execute_init_permissionless : M (Unit {0})
  execute_init_permissionless = execute_command p cfg opts init_permissionless_params λ params. do
    build_and_handle_transaction p cfg opts
        (record {
          title = "Initialize Permissionless Authority Transaction";
          description = some (
              "Creates permissionless vault authority with name: "
              <> p.text_of (get params "name"));
          payer = undefined;
          param_summary =
              some ("Initializing permissionless authority:", ("name", get params "name") ∷ []);
        })
        (do
          boss ← get_boss p cfg
          ix ← build_initialize_permissionless_authority_ix p cfg (get params "name") (pubkey boss)
          pure (ix ∷ []))
