-- ===== src/Helper/Setup.antt =====
-- scripts/utils/script-helper.ts: the builders of instructions about initialisation and minting.
use on_re_sol.Base.{[], ◌∷◌}
use on_re_sol.Js.{Value, pubkey, or_else}
use on_re_sol.Session.{Platform, Instruction, call, M, pure, ◌>>=◌}
use on_re_sol.Network.{NetworkConfig}
use on_re_sol.Tokens.{token_program_id}
use on_re_sol.Helper.Addresses.{new_bn, program_data_pda}

module _ (p : Platform) (cfg : NetworkConfig) where
  unfoldable pub build_initialize_ix : Value → Value → Value → M Instruction
  build_initialize_ix boss program_data onyc_mint = do
    pure (
        call "initialize" ([]) (
          ("boss", boss)
          ∷ ("program", pubkey cfg.program_id)
          ∷ ("programData", or_else program_data (pubkey (program_data_pda p cfg)))
          ∷ ("onycMint", or_else onyc_mint (pubkey cfg.mints.onyc))
          ∷ []))

  unfoldable pub build_initialize_permissionless_authority_ix : Value → Value → M Instruction
  build_initialize_permissionless_authority_ix name boss = do
    pure (call "initializePermissionlessAuthority" (name ∷ []) (("boss", boss) ∷ []))

  unfoldable pub build_transfer_mint_authority_to_program_ix : Value → Value → Value → M Instruction
  build_transfer_mint_authority_to_program_ix mint token_program boss = do
    pure (
        call "transferMintAuthorityToProgram" ([]) (
          ("boss", boss)
          ∷ ("mint", mint)
          ∷ ("tokenProgram", or_else token_program (pubkey token_program_id))
          ∷ []))

  unfoldable pub build_transfer_mint_authority_to_boss_ix : Value → Value → Value → M Instruction
  build_transfer_mint_authority_to_boss_ix mint token_program boss = do
    pure (
        call "transferMintAuthorityToBoss" ([]) (
          ("boss", boss)
          ∷ ("mint", mint)
          ∷ ("tokenProgram", or_else token_program (pubkey token_program_id))
          ∷ []))

  unfoldable pub build_mint_to_ix : Value → M Instruction
  build_mint_to_ix amount = do
    amount_bn ← new_bn p amount
    pure (call "mintTo" (amount_bn ∷ []) (("tokenProgram", pubkey token_program_id) ∷ []))
