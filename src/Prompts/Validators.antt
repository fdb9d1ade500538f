-- ===== src/Prompts/Validators.antt =====
-- scripts/cli/prompts/validators.ts. Numbers that may be missing are `Option Number`.
use on_re_sol.Base.{
  ℕ, ◌/◌, ◌≤◌, ◌<◌, String, Option, none, some, ◌==◌, ◌≡◌, ◌↔◌, pos, negsuc, if◌then◌else◌, arith,
}
use on_re_sol.Js.{
  Number, nan, infinity, neg_infinity, int, frac, is_nan, is_integer, lt_int, gt_int, le_int, Value,
  num, str, undefined, null, trim, lower_is,
}
use on_re_sol.Session.{Platform, Check, accept, reject, Outcome, ok, throw}

-- An empty value is refused by the first test, and so is one of white space only.
unfoldable pub validate_public_key : Platform → String → Check
validate_public_key p value =
    if trim value == "" then reject "Public key is required" else elim (p.parse_key (trim value)) [
      | some _ ↦ accept
      | none ↦ reject "Invalid public key format"
    ]

unfoldable pub validate_basis_points : Option Number → Check
validate_basis_points none = reject "Basis points value is required"
validate_basis_points (some x) =
    if is_nan x
    then reject "Basis points value is required"
    else if lt_int x (pos 0)
    then reject "Basis points must be between 0 and 10000"
    else if gt_int x (pos 10000)
    then reject "Basis points must be between 0 and 10000"
    else if is_integer x
    then accept
    else reject "Basis points must be a whole number"

unfoldable pub validate_amount : Option Number → Check
validate_amount none = reject "Amount is required"
validate_amount (some x) =
    if is_nan x
    then reject "Amount is required"
    else if le_int x (pos 0)
    then reject "Amount must be positive"
    else if is_integer x
    then accept
    else reject "Amount must be a whole number"

unfoldable pub validate_apr : Option Number → Check
validate_apr none = reject "APR is required"
validate_apr (some x) =
    if is_nan x
    then reject "APR is required"
    else if lt_int x (pos 0)
    then reject "APR cannot be negative"
    else accept

unfoldable pub validate_duration : Option Number → Check
validate_duration none = reject "Duration is required"
validate_duration (some x) =
    if is_nan x
    then reject "Duration is required"
    else if le_int x (pos 0)
    then reject "Duration must be positive"
    else if is_integer x
    then accept
    else reject "Duration must be a whole number of seconds"

unfoldable pub validate_timestamp : Platform → Value → Check
validate_timestamp p (str value) =
    if value == ""
    then reject "Timestamp is required"
    else if lower_is value "now"
    then accept
    else if is_nan (p.date_ms value)
    then reject "Invalid date format. Use ISO format (e.g., 2025-06-01T00:00:00Z) or 'now'"
    else accept
validate_timestamp p (num x) =
    if lt_int x (pos 0) then reject "Timestamp cannot be negative" else accept
validate_timestamp p undefined = reject "Timestamp is required"
validate_timestamp p null = reject "Timestamp is required"
validate_timestamp p _ = accept

-- `Math.floor(x / 1000)` of a whole number of milliseconds.
unfoldable pub floor_seconds : Number → Number
floor_seconds (int (pos n)) = int (pos (n / 1000))
floor_seconds (int (negsuc n)) = int (negsuc (n / 1000))
floor_seconds (frac (pos n) _) = int (pos (n / 1000))
floor_seconds (frac (negsuc n) _) = int (negsuc (n / 1000))
floor_seconds x = x

unfoldable pub parse_timestamp : Platform → Value → Outcome Value
parse_timestamp p (num x) = ok (num x)
parse_timestamp p (str value) =
    if lower_is value "now"
    then ok (num (int (pos (p.now_ms / 1000))))
    else ok (num (floor_seconds (p.date_ms value)))
parse_timestamp p _ = throw "value.toLowerCase is not a function"

-- A fee is accepted exactly if it is a whole number of basis points from 0 to 10000.
pub validate_basis_points_iff :
    (x : Number)
    → (validate_basis_points (some x) ≡ accept) ↔ ((n : ℕ) × (x ≡ int (pos n)) × (n ≤ 10000))
unfolding validate_basis_points
validate_basis_points_iff nan = (λ h. cc, λ h. cc (h.1))
validate_basis_points_iff infinity = (λ h. cc, λ h. cc (h.1))
validate_basis_points_iff neg_infinity = (λ h. cc, λ h. cc (h.1))
validate_basis_points_iff (int (pos n)) = (λ h. (n, ground arith, ground arith), λ h. ground arith)
validate_basis_points_iff (int (negsuc n)) = (λ h. absurd (ground arith), λ h. ground arith)
validate_basis_points_iff (frac z tag) = (λ h. absurd (ground arith), λ h. ground arith)

-- An amount is accepted exactly if it is a positive whole number.
pub validate_amount_iff :
    (x : Number) → (validate_amount (some x) ≡ accept) ↔ ((n : ℕ) × (x ≡ int (pos n)) × (0 < n))
unfolding validate_amount
validate_amount_iff nan = (λ h. cc, λ h. cc (h.1))
validate_amount_iff infinity = (λ h. cc, λ h. cc (h.1))
validate_amount_iff neg_infinity = (λ h. cc, λ h. cc (h.1))
validate_amount_iff (int (pos n)) = (λ h. (n, ground arith, ground arith), λ h. ground arith)
validate_amount_iff (int (negsuc n)) = (λ h. absurd (ground arith), λ h. ground arith)
validate_amount_iff (frac z tag) = (λ h. absurd (ground arith), λ h. ground arith)
