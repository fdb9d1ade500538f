-- ===== src/Prompts/Checked.antt =====
-- scripts/cli/prompts: the types of prompted values.
use on_re_sol.Base.{
  ap, ◌/◌, ℕ, ◌≤◌, ◌<◌, String, Bool, true, false, List, Option, none, some, ◌==◌, eq_iff, pos,
  negsuc, ◌≡◌, refl, arith, any, Option-cases, Bool-cases, inl, inr, ◌⊎◌,
}
use on_re_sol.Js.{
  lt_int, or_else, Number, nan, infinity, neg_infinity, int, frac, is_nan, PublicKey, Value,
  undefined, bool, num, str, pubkey, trim, lower_is,
}
use on_re_sol.Session.{
  Platform, World, accept, InputSpec, NumberSpec, SelectSpec, ok, Ensures, Ensures-if, Ensures-bind,
  Ensures-lift, Ensures-pure, Ensures-answer, Ensures-weaken, M, input, number, select, ◌>>=◌, pure,
}
use on_re_sol.Network.{NetworkConfig}
use on_re_sol.Prompts.Types.{
  ParamType, public_key, mint, amount, basis_points, apr, timestamp, duration, boolean, string,
  ParamDefinition,
}
use on_re_sol.Prompts.Validators.{
  validate_basis_points, validate_basis_points_iff, validate_amount, validate_amount_iff,
  validate_apr, validate_duration, validate_timestamp, parse_timestamp, floor_seconds,
}
use on_re_sol.Prompts.Transform.{new_public_key}
use on_re_sol.Prompts.Single.{
  number_or_undefined, optional_basis_points, mint_choices, selected_mint, default_value,
  prompt_key, prompt_mint, prompt_amount, prompt_basis_points, prompt_apr, prompt_timestamp,
  prompt_by_type, prompt_duration, prompt_for_single_param,
}

-- The documented behaviour of the prompts: a text has passed the validation, and so has a number, but
-- not an empty answer to a number prompt; a selection is the value of a choice.
pub record IsPrompting (p : Platform) : Type 0 where
  pub input_validated :
      (n : ℕ) (q : InputSpec) (s : String) → p.ask_input n q ≡ some s → q.validate s ≡ accept
  pub number_validated :
      (n : ℕ) (q : NumberSpec) (x : Number)
      → p.ask_number n q ≡ some (some x)
      → q.validate (some x) ≡ accept
  pub select_offered :
      (n : ℕ) (q : SelectSpec) (s : String)
      → p.ask_select n q ≡ some s
      → any (λ c. c.1 == s) q.choices ≡ true

-- The values of each type of parameter.
abbrev pub HasType : ParamType → Value → Type 0
HasType public_key v = (k : PublicKey) × (v ≡ pubkey k)
HasType mint v = (k : PublicKey) × (v ≡ pubkey k)
HasType amount v = (n : ℕ) × (v ≡ num (int (pos n))) × (0 < n)
HasType basis_points v = (n : ℕ) × (v ≡ num (int (pos n))) × (n ≤ 10000)
HasType apr v = (x : Number) × (v ≡ num x) × (is_nan x ≡ false) × (lt_int x (pos 0) ≡ false)
HasType timestamp v = (x : Number) × (v ≡ num x) × (is_nan x ≡ false)
HasType duration v = (n : ℕ) × (v ≡ num (int (pos n))) × (0 < n)
HasType boolean v = (b : Bool) × (v ≡ bool b)
HasType string v = (s : String) × (v ≡ str s)
HasType ParamType.select v = (s : String) × (v ≡ str s)

-- What a prompt for a parameter gives: a value of its type, or, for an amount, an APR or a duration,
-- the missing value of an empty answer.
abbrev pub MayBeEmpty : ParamType → Type 0
MayBeEmpty amount = Unit
MayBeEmpty apr = Unit
MayBeEmpty duration = Unit
MayBeEmpty _ = ⊥

abbrev pub IsAnswer : ParamType → Value → Type 0
IsAnswer ty v = HasType ty v ⊎ ((v ≡ undefined) × MayBeEmpty ty)

amount_of_accepted : (x : Number) → validate_amount (some x) ≡ accept → HasType amount (num x)
unfolding validate_amount
amount_of_accepted x h =
    let (n, e, positive) = (validate_amount_iff x).0 h in (n, ap num e, positive)

duration_of_accepted : (x : Number) → validate_duration (some x) ≡ accept → HasType duration (num x)
unfolding validate_duration
duration_of_accepted nan h = cc
duration_of_accepted infinity h = cc
duration_of_accepted neg_infinity h = cc
duration_of_accepted (int (pos n)) h = (n, refl, ground arith)
duration_of_accepted (int (negsuc n)) h = absurd (ground arith)
duration_of_accepted (frac z tag) h = absurd (ground arith)

apr_of_accepted : (x : Number) → validate_apr (some x) ≡ accept → HasType apr (num x)
unfolding validate_apr
apr_of_accepted x h = (x, refl, ground arith, ground arith)

basis_points_of_accepted :
    (x : Number) (d : Value)
    → optional_basis_points (some x) ≡ accept
    → HasType basis_points (num x)
unfolding validate_basis_points
basis_points_of_accepted x d h =
    let (n, e, bound) = (validate_basis_points_iff x).0 h in (n, ap num e, bound)

floor_seconds-is_nan : (x : Number) → is_nan x ≡ false → is_nan (floor_seconds x) ≡ false
unfolding floor_seconds
floor_seconds-is_nan nan h = h
floor_seconds-is_nan infinity h = h
floor_seconds-is_nan neg_infinity h = h
floor_seconds-is_nan (int (pos n)) h = refl
floor_seconds-is_nan (int (negsuc n)) h = refl
floor_seconds-is_nan (frac (pos n) tag) h = refl
floor_seconds-is_nan (frac (negsuc n) tag) h = refl

timestamp_of_accepted :
    (p : Platform) (s : String) {v : Value}
    → validate_timestamp p (str s) ≡ accept
    → parse_timestamp p (str s) ≡ ok v
    → HasType timestamp v
unfolding validate_timestamp parse_timestamp
timestamp_of_accepted p s h e = elim (Bool-cases (lower_is s "now")) [
  | inl now ↦ (int (pos (p.now_ms / 1000)), ground arith, refl)
  | inr date ↦
      (floor_seconds (p.date_ms s), ground arith, floor_seconds-is_nan (p.date_ms s) (ground arith))
]

new_public_key-key :
    (p : Platform) (s : String) {v : Value}
    → new_public_key p s ≡ ok v
    → (k : PublicKey) × (v ≡ pubkey k)
new_public_key-key p s h = elim (Option-cases (p.parse_key s)) [
  | inl missing ↦ absurd (ground arith)
  | inr (k, found) ↦ (k, ground arith)
]

selected_mint-key :
    (cfg : NetworkConfig) (s : String)
    → any (λ c. c.1 == s) (mint_choices cfg) ≡ true
    → (s == "custom") ≡ false
    → (k : PublicKey) × (selected_mint cfg s ≡ pubkey k)
selected_mint-key cfg s offered other = elim (Bool-cases (s == "usdc")) [
  | inl usdc ↦ (cfg.mints.usdc, rw usdc)
  | inr not_usdc ↦ elim (Bool-cases (s == "onyc")) [
    | inl onyc ↦ (cfg.mints.onyc, rw (not_usdc, onyc))
    | inr not_onyc ↦
        let usdg : (s == "usdg") ≡ true = ground (
          arith,
          eq_iff s "usdg",
          eq_iff "usdc" s,
          eq_iff "onyc" s,
          eq_iff "usdg" s,
          eq_iff s "usdc",
          eq_iff s "onyc",
          eq_iff s "custom",
          eq_iff "custom" s,
        ) in
        (cfg.mints.usdg, rw (not_usdc, not_onyc, usdg))
  ]
]

module _ (p : Platform) (prompting : IsPrompting p) (cfg : NetworkConfig) where
  prompt_key-HasType :
      (message : String) (d : Value) → Ensures (HasType public_key) (prompt_key p message d)
  unfolding prompt_key
  prompt_key-HasType message d =
      Ensures-bind _
        λ shown. Ensures-bind _ λ value. Ensures-lift λ v h. new_public_key-key p (trim value) h

  prompt_mint-HasType :
      (message : String) (d : Value) → Ensures (HasType mint) (prompt_mint p cfg message d)
  unfolding prompt_mint select
  prompt_mint-HasType message d = Ensures-bind _ λ choice. Ensures-answer λ n selection h.
      Ensures-if (selection == "custom") (λ custom. prompt_key-HasType _ d)
        λ other.
          Ensures-pure
            (selected_mint-key cfg selection (prompting.select_offered n _ selection h) other)

  -- The typed value of a given number, or what an empty answer stands for.
  prompt_number-IsAnswer :
      (ty : ParamType) (q : NumberSpec) (f : Option Number → Value)
      → IsAnswer ty (f none)
      → ((x : Number) → q.validate (some x) ≡ accept → HasType ty (f (some x)))
      → Ensures (IsAnswer ty) (number p q >>= λ x. pure (f x))
  unfolding number
  prompt_number-IsAnswer ty q f empty typed = Ensures-answer λ n x h. Ensures-pure (given n x h)
    where
      given : (n : ℕ) (x : Option Number) → p.ask_number n q ≡ some x → IsAnswer ty (f x)
      given n none h = empty
      given n (some x) h = inl (typed x (prompting.number_validated n q x h))

  typed-IsAnswer : (ty : ParamType) {m : M Value} → Ensures (HasType ty) m → Ensures (IsAnswer ty) m
  typed-IsAnswer ty h = Ensures-weaken h λ v typed. inl typed

  prompt_timestamp-HasType :
      (message : String) (d : Value) → Ensures (HasType timestamp) (prompt_timestamp p message d)
  unfolding prompt_timestamp input
  prompt_timestamp-HasType message d = Ensures-bind _ λ shown.
      Ensures-answer
        λ n s h. Ensures-lift λ v e. timestamp_of_accepted p s (prompting.input_validated n _ s h) e

  prompt_by_type-IsAnswer :
      (ty : ParamType) (message : String) (choices : List (String × String)) (d : Value)
      → (ty ≡ basis_points → HasType basis_points (or_else d (num (int (pos 0)))))
      → Ensures (IsAnswer ty) (prompt_by_type p cfg ty message choices d)
  unfolding prompt_amount prompt_basis_points prompt_apr prompt_duration
  prompt_by_type-IsAnswer public_key message choices d h =
      typed-IsAnswer public_key (prompt_key-HasType message d)
  prompt_by_type-IsAnswer mint message choices d h =
      typed-IsAnswer mint (prompt_mint-HasType message d)
  prompt_by_type-IsAnswer amount message choices d h =
      prompt_number-IsAnswer amount _ number_or_undefined (inr (refl, tt)) amount_of_accepted
  prompt_by_type-IsAnswer basis_points message choices d h =
      prompt_number-IsAnswer basis_points _
        (λ x. or_else (number_or_undefined x) (or_else d (num (int (pos 0))))) (inl (h refl))
        λ x e. basis_points_of_accepted x d e
  prompt_by_type-IsAnswer apr message choices d h =
      prompt_number-IsAnswer apr _ number_or_undefined (inr (refl, tt)) apr_of_accepted
  prompt_by_type-IsAnswer timestamp message choices d h =
      typed-IsAnswer timestamp (prompt_timestamp-HasType message d)
  prompt_by_type-IsAnswer duration message choices d h =
      prompt_number-IsAnswer duration _ number_or_undefined (inr (refl, tt)) duration_of_accepted
  prompt_by_type-IsAnswer boolean message choices d h =
      Ensures-bind _ λ b. Ensures-pure (inl (b, refl))
  prompt_by_type-IsAnswer string message choices d h =
      Ensures-bind _ λ s. Ensures-pure (inl (s, refl))
  prompt_by_type-IsAnswer ParamType.select message choices d h =
      Ensures-bind _ λ s. Ensures-pure (inl (s, refl))

  pub prompt_for_single_param-IsAnswer :
      (param : ParamDefinition) (w : World) (v : Value)
      → (param.type ≡ basis_points
          → HasType basis_points (or_else (default_value cfg param.default) (num (int (pos 0)))))
      → (prompt_for_single_param p cfg param w).0 ≡ ok v
      → IsAnswer param.type v
  unfolding prompt_for_single_param
  prompt_for_single_param-IsAnswer param w v h e =
      (prompt_by_type-IsAnswer param.type param.description param.choices
          (default_value cfg param.default) h).value
        w v e
