-- ===== src/Onchain/State.antt =====
-- programs/onreapp/src/state.rs: the state account, and the check of the boss that most
-- instructions state as `has_one = boss` for the account that signs.
pub mod Operations
pub mod Authority
pub mod Admins
use on_re_sol.Base.{ℕ, Bool, List}
use on_re_sol.Js.{PublicKey, key, equals}
use on_re_sol.Onchain.Run.{Run, require, constraint_has_one}

-- `Pubkey::default()`, 32 zero bytes
abbrev pub default_key : PublicKey
default_key = key "11111111111111111111111111111111"

pub record State : Type 0 where
  pub boss : PublicKey
  pub proposed_boss : PublicKey
  pub is_killed : Bool
  pub onyc_mint : PublicKey
  pub admins : List PublicKey
  pub approver1 : PublicKey
  pub approver2 : PublicKey
  pub max_supply : ℕ
  pub redemption_admin : PublicKey

unfoldable pub has_one_boss : State → PublicKey → Run (Unit {0})
has_one_boss state boss = require (equals state.boss boss) constraint_has_one
