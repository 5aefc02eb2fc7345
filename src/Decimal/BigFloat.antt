-- ===== src/Decimal/BigFloat.antt =====
-- `math/big.Float` as the platform uses it: a sign and a number of 2^-scale, rounded to `p` bits
-- (to nearest, ties to even) after each operation, and the texts that it reads and prints.
-- A text is what `SetString` finds in it: nothing, or an integer over a power of ten. Infinities and
-- hexadecimal digits are not read.
use multi_trade_platform.Base.{
  ℕ, zero, suc, ◌+◌, ◌-◌, ◌*◌, ◌/◌, ◌%◌, ◌^◌, max, Bool, true, false, not, Option, none, some, ltb,
  ◌==◌, if◌then◌else◌,
}

pub data NumText : Type 0 where
  malformed : NumText
  number : Bool → ℕ → ℕ → NumText

pub record Float : Type 0 where
  pub neg : Bool
  pub mant : ℕ
  pub scale : ℕ

-- n / d to the nearest integer, ties to even.
unfoldable pub nearest : ℕ → ℕ → ℕ
nearest n d =
    let q = n / d in
    let r = n % d in if ltb (2 * r) d then q else if ltb d (2 * r) then q + 1 else q + q % 2

-- The least power of two `u` with n < b * u, found in at most `fuel` doublings.
unfoldable pub ulp : ℕ → ℕ → ℕ → ℕ
ulp zero b n = 1
ulp (suc fuel) b n = let rest = ulp fuel b (n / 2) in if ltb n b then 1 else 2 * rest

-- n / d in `p` bits.
unfoldable pub round : ℕ → ℕ → ℕ → ℕ
round p n d = let u = ulp (n / d) (2 ^ p) (n / d) in nearest n (d * u) * u

-- The number c / 10^places in `p` bits.
unfoldable pub read : ℕ → Bool → ℕ → ℕ → Float
read p sign c places =
    let s = p + 4 * places in
    record { neg = sign; mant = round p (c * 2 ^ s) (10 ^ places); scale = s }

-- `new(big.Float).SetPrec(p).SetString(s)`. A text with fewer than eight places is read as the same
-- number with eight.
unfoldable pub set_string : ℕ → NumText → Option Float
unfolding read
set_string p malformed = none
set_string p (number sign c places) =
    some (if ltb places 8 then read p sign (c * 10 ^ (8 - places)) 8 else read p sign c places)

-- The two mantissas over one scale.
abbrev pub aligned : Float → Float → ℕ
aligned x y = x.mant * 2 ^ (y.scale - x.scale)

-- A sum of two signed magnitudes.
unfoldable pub sum : ℕ → Bool → ℕ → Bool → ℕ → ℕ → Float
sum p true a true b s = record { neg = true; mant = round p (a + b) 1; scale = s }
sum p false a false b s = record { neg = false; mant = round p (a + b) 1; scale = s }
sum p true a false b s =
    if ltb b a
    then record { neg = true; mant = round p (a - b) 1; scale = s }
    else record { neg = false; mant = round p (b - a) 1; scale = s }
sum p false a true b s =
    if ltb a b
    then record { neg = true; mant = round p (b - a) 1; scale = s }
    else record { neg = false; mant = round p (a - b) 1; scale = s }

-- `z.Add(x, y)`, `z.Sub(x, y)` and `z.Mul(x, y)` with z of `p` bits.
unfoldable pub add : ℕ → Float → Float → Float
unfolding sum
add p x y = sum p x.neg (aligned x y) y.neg (aligned y x) (max x.scale y.scale)

unfoldable pub sub : ℕ → Float → Float → Float
unfolding sum
sub p x y = sum p x.neg (aligned x y) (not y.neg) (aligned y x) (max x.scale y.scale)

unfoldable pub mul : ℕ → Float → Float → Float
mul p x y = record {
  neg = if x.neg then not y.neg else y.neg;
  mant = round p (x.mant * y.mant) 1;
  scale = x.scale + y.scale;
}

pub data Order : Type 0 where
  less equal greater : Order

abbrev compare_mants : ℕ → ℕ → Order
compare_mants a b = if ltb a b then less else if ltb b a then greater else equal

compare_signed : Bool → ℕ → Bool → ℕ → Order
compare_signed false a false b = compare_mants a b
compare_signed true a true b = compare_mants b a
compare_signed true a false b = if a + b == 0 then equal else less
compare_signed false a true b = if a + b == 0 then equal else greater

-- `x.Cmp(y)`
unfoldable pub cmp : Float → Float → Order
unfolding compare_signed
cmp x y = compare_signed x.neg (aligned x y) y.neg (aligned y x)

-- `fmt.Sprintf("%.8f", x)`
unfoldable pub format : Float → NumText
format x = number x.neg (nearest (x.mant * 10 ^ 8) (2 ^ x.scale)) 8
