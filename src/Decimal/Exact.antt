-- ===== src/Decimal/Exact.antt =====
-- What the rounding means for amounts: columns of type NUMERIC(20, 8), as counts of 10^-8.
use native.Mathlib.Decide.{dec_lt}
use native.Mathlib.Nat.{mul-le-mul_left, mul-le-mul_right, pow-suc, zero-mul}
use multi_trade_platform.Base.{
  ℕ, zero, suc, max, ap, ◌+◌, ◌-◌, ◌*◌, ◌^◌, ◌≤◌, ◌<◌, ◌≡◌, refl, arith, false, some, ltb,
}
use multi_trade_platform.Decimal.BigFloat.{
  NumText, number, Float, set_string, round, aligned, add, sub, cmp, less, greater, equal, format,
}
use multi_trade_platform.Decimal.Rounding.{
  Within, round-Within, round_one-Within, round_zero, nearest_unique,
}

-- The text that the database returns for a column that holds c * 10^-8.
abbrev pub column : ℕ → NumText
column c = number false c 8

-- The significand that is read from it, in units of 2^-(p + 32).
abbrev pub mant : ℕ → ℕ → ℕ
mant p c = round p (c * 2 ^ (p + 32)) (10 ^ 8)

abbrev pub of_column : ℕ → ℕ → Float
of_column p c = record { neg = false; mant = mant p c; scale = p + 32 }

pub set_string-column : (p c : ℕ) → set_string p (column c) ≡ some (of_column p c)
unfolding set_string
set_string-column p c = refl

pub pow_pos : (p : ℕ) → 0 < 2 ^ p
pow_pos zero = omega arith
pow_pos (suc p) = rw (pow-suc 2 p) (omega (arith, pow_pos p))

pub pow_add : (p k : ℕ) → 2 ^ (p + k) ≡ 2 ^ p * 2 ^ k
pow_add p zero = let e : p + 0 ≡ p = omega arith in rw e (omega arith)
pow_add p (suc k) =
    let e : p + suc k ≡ suc (p + k) = omega arith in
    rw (e, pow-suc 2 (p + k), pow-suc 2 k, pow_add p k) (omega arith)

pub le-of-mul-le : (b x y : ℕ) → 0 < b → b * x ≤ b * y → x ≤ y
le-of-mul-le b x y h le = grind arith

-- k * m is within s of k * n.
abbrev pub Close : ℕ → ℕ → ℕ → ℕ → Type 0
Close k m n s = (k * m ≤ k * n + s) × (k * n ≤ k * m + s)

pub Within-Close : (b k m n s : ℕ) → 0 < b → Within b m n → k * n ≤ b * s → Close k m n s
Within-Close b k m n s h w le = (
  le-of-mul-le b (k * m) (k * n + s) h
      (omega (arith, mul-le-mul_left {m = b * m} {n = b * n + n} k w.0)),
  le-of-mul-le b (k * n) (k * m + s) h
      (omega (arith, mul-le-mul_left {m = b * n} {n = b * m + n} k w.1)),
)

pub Within-mul : (b d m n : ℕ) → Within b m n → Within b (m * d) (n * d)
Within-mul b d m n w = (
  omega (arith, mul-le-mul_right {m = b * m} {n = b * n + n} d w.0),
  omega (arith, mul-le-mul_right {m = b * n} {n = b * m + n} d w.1),
)

-- Amounts for which p bits leave room to spare.
abbrev pub Fits : ℕ → ℕ → Type 0
Fits p c = 10 * (c + 1) ≤ 2 ^ p

room : (p c : ℕ) → 2 ^ p * 10 ^ 8 ≤ suc c * 2 ^ (p + 32)
room p c =
    rw (pow_add p 32)
      (omega (arith, mul-le-mul_left {m = 10 ^ 8} {n = suc c * 2 ^ 32} (2 ^ p) (omega arith)))

pub mant-Within : (p c : ℕ) → Within (2 ^ p) (mant p c * 10 ^ 8) (c * 2 ^ (p + 32))
mant-Within p zero =
    rw (zero-mul (2 ^ (p + 32)), round_zero p (10 ^ 8) (omega arith) (pow_pos p)) (omega arith)
mant-Within p (suc c) =
    round-Within p (suc c * 2 ^ (p + 32)) (10 ^ 8) (omega arith) (pow_pos p) (room p c)

pub mant-Close :
    (p c : ℕ) → Fits p c → Close 10 (mant p c * 10 ^ 8) (c * 2 ^ (p + 32)) (2 ^ (p + 32))
mant-Close p c fits =
    Within-Close (2 ^ p) 10 (mant p c * 10 ^ 8) (c * 2 ^ (p + 32)) (2 ^ (p + 32)) (pow_pos p)
      (mant-Within p c)
      (omega (arith, mul-le-mul_right {m = 10 * (c + 1)} {n = 2 ^ p} (2 ^ (p + 32)) fits))

-- The sum and the difference of two significands, once more rounded.
again-Close :
    (p c n : ℕ)
    → Fits p (c + 1)
    → n * 10 ^ 8 ≤ (c + 1) * 2 ^ (p + 32)
    → Close 10 (round p n 1 * 10 ^ 8) (n * 10 ^ 8) (2 ^ (p + 32))
again-Close p c n fits le =
    Within-Close (2 ^ p) 10 (round p n 1 * 10 ^ 8) (n * 10 ^ 8) (2 ^ (p + 32)) (pow_pos p)
      (Within-mul (2 ^ p) (10 ^ 8) (round p n 1) n (round_one-Within p n (pow_pos p)))
      (omega (arith, le, mul-le-mul_right {m = 10 * (c + 1 + 1)} {n = 2 ^ p} (2 ^ (p + 32)) fits))

-- A significand that lies close to c units is printed as c units.
format-Close :
    (p c z : ℕ)
    → Close 10 (z * 10 ^ 8) (c * 2 ^ (p + 32)) (4 * 2 ^ (p + 32))
    → format (record { neg = false; mant = z; scale = p + 32 }) ≡ column c
unfolding format
format-Close p c z close = rw (
    nearest_unique c (z * 10 ^ 8) (2 ^ (p + 32)) (omega (arith, pow_pos (p + 32)))
      (omega (arith, pow_pos (p + 32))))

pub not-ltb : (x y : ℕ) → y ≤ x → ltb x y ≡ false
not-ltb x y h = ground arith

mant-lt : (p a b : ℕ) → a < b → Fits p b → mant p a < mant p b
mant-lt p a b lt fits =
    let close_a = mant-Close p a (omega arith) in
    let close_b = mant-Close p b fits in
    omega (arith, pow_pos (p + 32), mul-le-mul_right {m = suc a} {n = b} (2 ^ (p + 32)) lt)

mant-le : (p a b : ℕ) → a ≤ b → Fits p b → mant p a ≤ mant p b
mant-le p a b le fits = elim (dec_lt a b) [
  | yes lt ↦ omega (arith, mant-lt p a b lt fits)
  | no ge ↦ let e : a ≡ b = omega arith in rw e (omega arith)
]

-- Two columns are over one scale.
pub aligned_lem : (p a b : ℕ) → aligned (of_column p a) (of_column p b) ≡ mant p a
aligned_lem p a b = let e : (p + 32) - (p + 32) ≡ 0 = omega arith in rw e (omega arith)

pub max_lem : (s : ℕ) → max s s ≡ s
max_lem s = omega arith

-- An amount that is read and printed is the same.
pub format-of_column : (p c : ℕ) → Fits p c → format (of_column p c) ≡ column c
format-of_column p c fits =
    let close = mant-Close p c fits in format-Close p c (mant p c) (omega arith)

pub add-exact :
    (p a b : ℕ)
    → Fits p (a + b + 1)
    → format (add p (of_column p a) (of_column p b)) ≡ column (a + b)
unfolding add
add-exact p a b fits =
    let close_a = mant-Close p a (omega arith) in
    let close_b = mant-Close p b (omega arith) in
    let again = again-Close p (a + b) (mant p a + mant p b) fits (omega arith) in
    rw (aligned_lem p a b, aligned_lem p b a, max_lem (p + 32))
      (format-Close p (a + b) (round p (mant p a + mant p b) 1) (omega arith))

pub sub-exact :
    (p a b : ℕ)
    → b ≤ a
    → Fits p (a + 1)
    → format (sub p (of_column p a) (of_column p b)) ≡ column (a - b)
unfolding sub
sub-exact p a b le fits =
    let ordered = mant-le p b a le (omega arith) in
    let close_a = mant-Close p a (omega arith) in
    let close_b = mant-Close p b (omega arith) in
    let again = again-Close p a (mant p a - mant p b) fits (omega arith) in
    let parts : (a - b) + b ≡ a = omega arith in
    let units = ap (λ (c : ℕ). c * 2 ^ (p + 32)) parts in
    rw
      (
        aligned_lem p a b,
        aligned_lem p b a,
        max_lem (p + 32),
        not-ltb (mant p a) (mant p b) ordered,
      )
      (format-Close p (a - b) (round p (mant p a - mant p b) 1) (omega arith))

pub cmp_less : (p a b : ℕ) → a < b → Fits p b → cmp (of_column p a) (of_column p b) ≡ less
unfolding cmp
cmp_less p a b lt fits =
    rw (aligned_lem p a b, aligned_lem p b a) (ground (arith, mant-lt p a b lt fits))

pub cmp_greater : (p a b : ℕ) → b < a → Fits p a → cmp (of_column p a) (of_column p b) ≡ greater
unfolding cmp
cmp_greater p a b lt fits =
    rw (aligned_lem p a b, aligned_lem p b a) (ground (arith, mant-lt p b a lt fits))

pub cmp_equal : (p a : ℕ) → cmp (of_column p a) (of_column p a) ≡ equal
unfolding cmp
cmp_equal p a = ground arith
