-- ===== src/Tokens.antt =====
-- scripts/cli/utils/token-utils.ts
pub mod Agreement
use on_re_sol.Base.{ℕ, String, ◌<>◌, Bool, ◌==◌, Option, none, some, if◌then◌else◌}
use on_re_sol.Js.{PublicKey, key, base58, Value, to_base58}
use on_re_sol.Session.{Outcome, ok, throw}
use on_re_sol.Network.{Mints, NetworkConfig}

abbrev pub token_program_id : PublicKey
token_program_id = key "TokenkegQfeZyiNwAJbNbGKPFXCWuBvf9Ss623VQ5DA"

abbrev pub token_2022_program_id : PublicKey
token_2022_program_id = key "TokenzQdBNbLqP5VEhdkAS6EPFLC1PHnBqCXEpPxuEb"

module _ (cfg : NetworkConfig) where
  unfoldable pub get_token_decimals : Value → Outcome ℕ
  get_token_decimals mint = elim (to_base58 mint) [
    | none ↦ throw "tokenMint.toBase58 is not a function"
    | some address ↦
        if base58 cfg.mints.usdc == address
        then ok 6
        else if base58 cfg.mints.usdg == address
        then ok 6
        else if base58 cfg.mints.onyc == address
        then ok 9
        else throw (
            "Unknown token mint: "
            <> (address <> ". Please add explicit decimal configuration for this token."))
  ]

  unfoldable pub get_token_program_id : Value → Outcome PublicKey
  get_token_program_id mint = elim (to_base58 mint) [
    | none ↦ throw "tokenMint.toBase58 is not a function"
    | some address ↦
        if base58 cfg.mints.usdc == address
        then ok token_program_id
        else if base58 cfg.mints.usdg == address
        then ok token_2022_program_id
        else if base58 cfg.mints.onyc == address
        then ok token_program_id
        else throw (
            "Unknown token mint: "
            <> (address <> ". Please add explicit token program configuration for this token."))
  ]
