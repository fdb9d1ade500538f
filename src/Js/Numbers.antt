-- ===== src/Js/Numbers.antt =====
-- Numbers. A double is not a number, infinite, an integer, or lies strictly between two integers;
-- -0 is the integer 0. Comparisons are with integers only, as in the scripts.
use on_re_sol.Base.{ℕ, zero, suc, ◌+◌, ◌-◌, ◌*◌, ◌/◌, ◌%◌, ◌^◌, Bool, true, false}
use on_re_sol.Base.{ℤ, pos, negsuc, ltz, lez, ltb, leb, if◌then◌else◌, ◌||◌, ◌&&◌}

-- `frac z tag` lies strictly between z and z + 1; `tag` stands for the digits of its fraction.
pub data Number : Type 0 where
  nan infinity neg_infinity : Number
  int : ℤ → Number
  frac : ℤ → ℕ → Number

abbrev pub is_nan : Number → Bool
is_nan nan = true
is_nan _ = false

-- `Number.isInteger(x)`
abbrev pub is_integer : Number → Bool
is_integer (int _) = true
is_integer _ = false

-- `x < k`, `x > k` and `x <= k` for an integer k.
abbrev pub lt_int : Number → ℤ → Bool
lt_int nan k = false
lt_int infinity k = false
lt_int neg_infinity k = true
lt_int (int z) k = ltz z k
lt_int (frac z _) k = ltz z k

abbrev pub gt_int : Number → ℤ → Bool
gt_int nan k = false
gt_int infinity k = true
gt_int neg_infinity k = false
gt_int (int z) k = ltz k z
gt_int (frac z _) k = lez k z

abbrev pub le_int : Number → ℤ → Bool
le_int nan k = false
le_int infinity k = false
le_int neg_infinity k = true
le_int (int z) k = lez z k
le_int (frac z _) k = ltz z k

-- How often n must be halved to lie below 2^53.
halvings : ℕ → ℕ → ℕ
halvings zero n = 0
halvings (suc fuel) n = let more = halvings fuel (n / 2) in if ltb n (2 ^ 53) then 0 else suc more

-- The nearest double of n, ties to the even one: the 53 leading bits, rounded by the rest.
round_bits : ℕ → ℕ → ℕ
round_bits n zero = n
round_bits n (suc k) =
    let kept = n / 2 ^ suc k in
    let rest = n % 2 ^ suc k in
    let half = 2 ^ k in
    if ltb half rest || (leb half rest && leb 1 (kept % 2))
    then (kept + 1) * 2 ^ suc k
    else kept * 2 ^ suc k

overflow_bound : ℕ
overflow_bound = 2 ^ 1024 - 2 ^ 970

unfoldable pub nearest : ℕ → Number
unfolding halvings round_bits overflow_bound
nearest n = if leb overflow_bound n then infinity else int (pos (round_bits n (halvings 1024 n)))

unfoldable pub negate : Number → Number
negate nan = nan
negate infinity = neg_infinity
negate neg_infinity = infinity
negate (int (pos zero)) = int (pos 0)
negate (int (pos (suc n))) = int (negsuc n)
negate (int (negsuc n)) = int (pos (suc n))
negate (frac (pos n) tag) = frac (negsuc n) tag
negate (frac (negsuc n) tag) = frac (pos n) tag
