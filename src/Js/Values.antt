-- ===== src/Js/Values.antt =====
-- Untyped values, as they pass through the command line, the prompts and the builders.
use Prim.Native.String.{String}
use on_re_sol.Base.{Option, some, Bool, true, false, not, List, ℤ, pos, ◌==◌, leb, none, some}
use on_re_sol.Base.{lookup, ◌≡◌, ◌↔◌, eq_iff, arith}
use on_re_sol.Js.Numbers.{Number, nan, int}

-- A public key is given by its base58 text, which is one to one with its 32 bytes.
pub data PublicKey : Type 0 where
  key : String → PublicKey

abbrev pub base58 : PublicKey → String
base58 (key s) = s

-- `a.equals(b)`
abbrev pub equals : PublicKey → PublicKey → Bool
equals (key a) (key b) = a == b

-- `big` is a value of the big number library.
pub data Value : Type 0 where
  undefined null : Value
  bool : Bool → Value
  num : Number → Value
  str : String → Value
  pubkey : PublicKey → Value
  big : ℤ → Value

abbrev pub is_undefined : Value → Bool
is_undefined undefined = true
is_undefined _ = false

-- `v ?? d`
abbrev pub or_else : Value → Value → Value
or_else undefined d = d
or_else null d = d
or_else v d = v

abbrev number_truthy : Number → Bool
number_truthy nan = false
number_truthy (int (pos n)) = leb 1 n
number_truthy _ = true

-- Whether `if (v)` takes its branch.
abbrev pub truthy : Value → Bool
truthy undefined = false
truthy null = false
truthy (bool b) = b
truthy (num x) = number_truthy x
truthy (str s) = not (s == "")
truthy (pubkey _) = true
truthy (big _) = true

-- An object with named fields; a missing field reads as `undefined`.
abbrev pub Object : Type 0
Object = List (String × Value)

unfoldable pub get : Object → String → Value
unfolding lookup
get o k = elim (lookup k o) [ none ↦ undefined | some v ↦ v ]

-- `v.toBase58()`; `none` where v has no such method.
abbrev pub to_base58 : Value → Option String
to_base58 (pubkey k) = some (base58 k)
to_base58 _ = none

pub base58-eq_iff : (k : PublicKey) (s : String) → ((base58 k == s) ≡ true) ↔ (k ≡ key s)
base58-eq_iff (key a) s = ground (arith, eq_iff a s)
