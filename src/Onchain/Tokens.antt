-- ===== src/Onchain/Tokens.antt =====
-- programs/onreapp/src/utils/token_utils.rs and
-- programs/onreapp/src/instructions/redemption/redemption_utils.rs: the calls of the token programs.
pub mod Balance
pub mod Totals
use on_re_sol.Base.{
  ℕ, ◌+◌, ltb, leb, Bool, true, false, not, if◌then◌else◌, List, [], ◌∷◌, ◌++◌, Option, none, some,
}
use on_re_sol.Js.{PublicKey, equals}
use on_re_sol.Onchain.Run.{
  Run, ok, ◌>>=◌, ◌>>◌, ok_or, require, checked, u64_max, math_overflow, redemption_overflow,
  max_supply_exceeded, transfer_fee_not_supported,
}

-- The token accounts of an exchange: the user's, the boss's and those of the vault, each for the
-- token that is paid in or for the token that is paid out.
pub data TokenAccount : Type 0 where
  user_in user_out boss_in vault_in vault_out : TokenAccount

-- `transfer_checked`, `burn_checked` and `mint_to_checked` of the token programs
pub data TokenCall : Type 0 where
  transfer : TokenAccount → TokenAccount → ℕ → TokenCall
  burn : TokenAccount → ℕ → TokenCall
  mint : TokenAccount → ℕ → TokenCall

-- `matches!(mint.mint_authority, Some(pk) if pk == mint_authority_pda)`
abbrev pub program_controls_mint : Option PublicKey → PublicKey → Bool
program_controls_mint none mint_authority_pda = false
program_controls_mint (some pk) mint_authority_pda = equals pk mint_authority_pda

unfoldable pub check_supply : ℕ → ℕ → ℕ → Run (Unit {0})
check_supply supply amount max_supply =
    if ltb 0 max_supply
    then (do
      new_supply ← ok_or math_overflow (checked u64_max (supply + amount))
      require (leb new_supply max_supply) max_supply_exceeded)
    else ok tt

-- What the exchange is about: whether the program mints either token, the amounts, the supply of the
-- token that is paid out and its cap (0 is no cap).
pub record Exchange : Type 0 where
  pub controls_in : Bool
  pub controls_out : Bool
  pub net : ℕ
  pub fee : ℕ
  pub out : ℕ
  pub supply : ℕ
  pub max_supply : ℕ

-- The token programs answer each call: an error ends the instruction.
module _ (token_program : TokenCall → Run (Unit {0})) where
  unfoldable pub invoke : TokenCall → Run (List TokenCall)
  invoke call = do token_program call; ok (call ∷ [])

  unfoldable pub mint_tokens : ℕ → ℕ → ℕ → Run (List TokenCall)
  mint_tokens supply amount max_supply = do
    check_supply supply amount max_supply
    invoke (mint user_out amount)

  unfoldable pub transfer_fee : TokenAccount → ℕ → Run (List TokenCall)
  transfer_fee source fee = if ltb 0 fee then invoke (transfer source boss_in fee) else ok []

  unfoldable pub distribute : Exchange → Run (List TokenCall)
  distribute e =
      if e.controls_out
      then mint_tokens e.supply e.out e.max_supply
      else invoke (transfer vault_out user_out e.out)

  unfoldable pub pay_in : Exchange → Run (List TokenCall)
  pay_in e =
      if e.controls_in
      then (do
        moved ← invoke (transfer user_in vault_in e.net)
        burned ← invoke (burn vault_in e.net)
        charged ← transfer_fee user_in e.fee
        ok (moved ++ burned ++ charged))
      else (do
        total_amount ← ok_or math_overflow (checked u64_max (e.net + e.fee))
        invoke (transfer user_in boss_in total_amount))

  -- The first two arguments are what `has_transfer_fee` says of the two mints.
  unfoldable pub execute_token_operations : Run Bool → Run Bool → Exchange → Run (List TokenCall)
  execute_token_operations fee_in fee_out e = do
    taxed_in ← fee_in
    require (not taxed_in) transfer_fee_not_supported
    taxed_out ← fee_out
    require (not taxed_out) transfer_fee_not_supported
    paid ← pay_in e
    distributed ← distribute e
    ok (paid ++ distributed)

  unfoldable pub release : Exchange → Run (List TokenCall)
  release e =
      if e.controls_in
      then (do
        burned ← invoke (burn vault_in e.net)
        charged ← transfer_fee vault_in e.fee
        ok (burned ++ charged))
      else (do
        total_amount ← ok_or redemption_overflow (checked u64_max (e.net + e.fee))
        invoke (transfer vault_in boss_in total_amount))

  unfoldable pub execute_redemption_operations : Exchange → Run (List TokenCall)
  execute_redemption_operations e = do
    released ← release e
    distributed ← distribute e
    ok (released ++ distributed)
