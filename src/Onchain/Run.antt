-- ===== src/Onchain/Run.antt =====
-- programs/onreapp/src: how an instruction ends, and the checked arithmetic of machine words.
pub mod Inversion
pub mod Total
use on_re_sol.Base.{
  ℕ, ◌+◌, ◌-◌, ◌*◌, ◌/◌, ◌≤◌, ltb, leb, Bool, true, false, if◌then◌else◌, Option, none, some, ◌≡◌,
  arith,
}

-- The errors that the instructions return. `panic` aborts the program: an arithmetic operation of
-- Rust that is not checked, `unwrap` of nothing, or a division by zero.
pub data Fault : Type 0 where
  offer_overflow no_active_vector invalid_token_in_mint invalid_token_out_mint : Fault
  math_overflow zero_price_not_allowed decimals_exceed_max result_overflow : Fault
  redemption_overflow apy_overflow apy_div_by_zero : Fault
  start_time_in_past zero_value duplicate_start_time invalid_time_range too_many_vectors : Fault
  vector_not_found invalid_fee : Fault
  constraint_has_one invalid_boss_address no_boss_proposal not_proposed_boss : Fault
  admin_already_exists max_admins_reached admin_not_found : Fault
  invalid_approver approver_already_exists both_approvers_filled not_an_approver : Fault
  unauthorized_to_enable only_boss_can_disable no_change : Fault
  kill_switch_activated invalid_redemption_offer arithmetic_overflow arithmetic_underflow : Fault
  max_supply_exceeded transfer_fee_not_supported : Fault
  unauthorized account_not_initialized account_in_use : Fault
  invalid_redeemer invalid_redemption_admin invalid_boss constraint_mut : Fault
  panic : Fault
  out_of_fuel : Fault

pub data Run (A : Type 0) : Type 0 where
  ok : A → Run A
  err : Fault → Run A

infixl 5 ◌>>=◌ ◌>>◌
unfoldable pub ◌>>=◌ : {A B : Type 0} → Run A → (A → Run B) → Run B
ok a >>= f = f a
err e >>= f = err e

unfoldable pub ◌>>◌ : {B : Type 0} → Run (Unit {0}) → Run B → Run B
ok _ >> k = k
err e >> k = err e

-- `option.ok_or(fault)`
unfoldable pub ok_or : {A : Type 0} → Fault → Option A → Run A
ok_or fault none = err fault
ok_or fault (some a) = ok a

-- `require!(test, fault)`
unfoldable pub require : Bool → Fault → Run (Unit {0})
require true fault = ok tt
require false fault = err fault

unfoldable pub u64_max : ℕ
u64_max = 18_446_744_073_709_551_615

unfoldable pub u128_max : ℕ
u128_max = 340_282_366_920_938_463_463_374_607_431_768_211_455

-- A result that is kept only if it is at most `max`: `checked_add`, `checked_mul`, `checked_pow`.
unfoldable pub checked : ℕ → ℕ → Option ℕ
checked max value = if leb value max then some value else none

unfoldable pub checked_sub : ℕ → ℕ → Option ℕ
checked_sub a b = if leb b a then some (a - b) else none

unfoldable pub checked_div : ℕ → ℕ → Option ℕ
checked_div a b = if ltb 0 b then some (a / b) else none

-- `a / b` of Rust, which panics on zero.
unfoldable pub divide : ℕ → ℕ → Run ℕ
unfolding ok_or checked_div
divide a b = ok_or panic (checked_div a b)
