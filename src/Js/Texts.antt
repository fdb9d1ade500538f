-- ===== src/Js/Texts.antt =====
-- Texts by code points: `trim`, `toLowerCase` in comparisons with ASCII words, and `parseInt`.
use Prim.Native.Char.{code}
use Prim.Native.String
use Prim.Native.String.{String, [], ◌∷◌}
use on_re_sol.Base.{zero, suc, ℕ, ◌+◌, ◌-◌, ◌*◌, Bool, true, false, ◌||◌, ◌&&◌}
use on_re_sol.Base.{List, map, leb, if◌then◌else◌}
use on_re_sol.Js.Numbers.{Number, nan, nearest, negate}

-- The white space that `trim` and `parseInt` skip.
unfoldable pub is_space : ℕ → Bool
is_space c =
    leb 9 c && leb c 13
    || leb 32 c && leb c 32
    || leb 160 c && leb c 160
    || leb 0x1680 c && leb c 0x1680
    || leb 0x2000 c && leb c 0x200a
    || leb 0x2028 c && leb c 0x2029
    || leb 0x202f c && leb c 0x202f
    || leb 0x205f c && leb c 0x205f
    || leb 0x3000 c && leb c 0x3000
    || leb 0xfeff c && leb c 0xfeff

unfoldable pub trim_start : String → String
unfolding is_space
trim_start [] = []
trim_start (c ∷ s) = let rest = trim_start s in if is_space (code c) then rest else c ∷ s

-- White space at the end, dropped from the back.
unfoldable pub trim_end : String → String
unfolding is_space
trim_end [] = []
trim_end (c ∷ s) = elim (trim_end s) [
  | [] ↦ if is_space (code c) then [] else c ∷ []
  | d ∷ t ↦ c ∷ (d ∷ t)
]

unfoldable pub trim : String → String
unfolding trim_start trim_end
trim s = trim_end (trim_start s)

abbrev pub codes : String → List ℕ
codes [] = List.[]
codes (c ∷ s) = List.◌∷◌ (code c) (codes s)

abbrev pub lower : ℕ → ℕ
lower c = if leb b'A' c && leb c b'Z' then c + 32 else c

abbrev pub same_codes : List ℕ → List ℕ → Bool
same_codes List.[] List.[] = true
same_codes (List.◌∷◌ a s) (List.◌∷◌ b t) = leb a b && leb b a && same_codes s t
same_codes _ _ = false

-- `s.toLowerCase() === word`. No other code point becomes a letter of the words that the scripts
-- compare with.
unfoldable pub lower_is : String → String → Bool
lower_is s word = same_codes (map lower (codes s)) (codes word)

abbrev pub is_digit : ℕ → Bool
is_digit c = leb b'0' c && leb c b'9'

-- The value of the longest run of digits, if there is one.
unfoldable pub digits_from : ℕ → List ℕ → ℕ
digits_from acc List.[] = acc
digits_from acc (List.◌∷◌ c s) =
    let rest = digits_from (acc * 10 + (c - b'0')) s in if is_digit c then rest else acc

unfoldable pub leading_int : List ℕ → Number
unfolding digits_from nearest
leading_int List.[] = nan
leading_int (List.◌∷◌ c s) = if is_digit c then nearest (digits_from 0 (List.◌∷◌ c s)) else nan

unfoldable pub signed_int : List ℕ → Number
unfolding leading_int negate
signed_int List.[] = nan
signed_int (List.◌∷◌ c s) =
    if leb b'-' c && leb c b'-'
    then negate (leading_int s)
    else if leb b'+' c && leb c b'+'
    then leading_int s
    else leading_int (List.◌∷◌ c s)

-- `parseInt(s, 10)`
unfoldable pub parse_int : String → Number
unfolding signed_int trim_start
parse_int s = signed_int (codes (trim_start s))

-- `s.slice(0, n)` of an ASCII text.
unfoldable pub slice_from_start : ℕ → String → String
slice_from_start zero s = []
slice_from_start (suc n) [] = []
slice_from_start (suc n) (c ∷ s) = c ∷ slice_from_start n s

-- `s.replace("~", t)`: the first tilde only.
unfoldable pub replace_tilde : String → String → String
replace_tilde t [] = []
replace_tilde t (c ∷ s) =
    let rest = replace_tilde t s in
    if leb b'~' (code c) && leb (code c) b'~' then String.◌++◌ t s else c ∷ rest
