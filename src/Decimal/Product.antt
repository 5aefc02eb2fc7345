-- ===== src/Decimal/Product.antt =====
-- The product of two amounts: price times quantity, printed with eight decimals.
use native.Mathlib.Nat.{mul-le-mul, mul-le-mul_left, mul-le-mul_right}
use multi_trade_platform.Base.{ℕ, ◌+◌, ◌*◌, ◌^◌, ◌≤◌, ◌<◌, ◌≡◌, refl, arith}
use multi_trade_platform.Decimal.BigFloat.{round, mul, format, nearest}
use multi_trade_platform.Decimal.Rounding.{Within, Near, nearest-Near, round_one-Within}
use multi_trade_platform.Decimal.Exact.{
  column, of_column, mant, mant-Within, pow_pos, pow_add, le-of-mul-le, Close,
}

-- m is within 3 / b of n.
abbrev pub Thrice : ℕ → ℕ → ℕ → Type 0
Thrice b m n = (b * m ≤ b * n + 3 * n) × (b * n ≤ b * m + 3 * n)

pub Thrice-above :
    (b m n m' n' : ℕ)
    → 0 < b
    → b * m ≤ b * n + n
    → b * m' ≤ b * n' + n'
    → b * (m * m') ≤ b * (n * n') + 3 * (n * n')
Thrice-above b m n m' n' h p q =
    le-of-mul-le b (b * (m * m')) (b * (n * n') + 3 * (n * n')) h
      (omega (arith, mul-le-mul p q, mul-le-mul_right {m = 1} {n = b} (n * n') h))

pub Thrice-below :
    (b m n m' n' : ℕ)
    → 0 < b
    → Within b m n
    → b * n' ≤ b * m' + n'
    → b * (n * n') ≤ b * (m * m') + 3 * (n * n')
Thrice-below b m n m' n' h p q = le-of-mul-le b (b * (n * n')) (b * (m * m') + 3 * (n * n')) h (
    omega (
      arith,
      mul-le-mul_right {m = b * n} {n = b * m + n} (b * n') p.1,
      mul-le-mul_right {m = b * m} {n = b * n + n} n' p.0,
      mul-le-mul_left {m = b * n'} {n = b * m' + n'} (b * m) q,
      mul-le-mul_left {m = b * m} {n = b * n + n} (b * n') p.0,
      mul-le-mul_right {m = 1} {n = b} (n * n') h,
    ))

-- The significand of the product, before and after it is rounded.
pub again-Seven :
    (b d r x y n : ℕ)
    → Within b r (x * y)
    → Thrice b (x * d * (y * d)) n
    → 0 < b
    → (b * (r * d * d) ≤ b * n + 7 * n) × (b * n ≤ b * (r * d * d) + 7 * n)
again-Seven b d r x y n again three h =
    let up = mul-le-mul_right {m = b * r} {n = b * (x * y) + x * y} (d * d) again.0 in
    let down = mul-le-mul_right {m = b * (x * y)} {n = b * r + x * y} (d * d) again.1 in
    let coarse =
      le-of-mul-le b (x * d * (y * d)) (4 * n) h
        (omega (arith, three, mul-le-mul_right {m = 1} {n = b} n h)) in
    (omega arith, omega arith)

-- A cost in units of 10^-8, as the product of two amounts is printed.
abbrev pub cost : ℕ → ℕ → ℕ → ℕ
cost p a b = nearest (round p (mant p a * mant p b) 1 * 10 ^ 8) (2 ^ ((p + 32) + (p + 32)))

pub format-mul : (p a b : ℕ) → format (mul p (of_column p a) (of_column p b)) ≡ column (cost p a b)
unfolding mul format
format-mul p a b = refl

-- From the significand r to the printed number k, over the scale s * s.
printed-Close :
    (b s n r k : ℕ)
    → 0 < b
    → 0 < s
    → (b * (r * 10 ^ 8 * 10 ^ 8) ≤ b * (n * (s * s)) + 7 * (n * (s * s)))
      × (b * (n * (s * s)) ≤ b * (r * 10 ^ 8 * 10 ^ 8) + 7 * (n * (s * s)))
    → 70 * n ≤ b * 10 ^ 8
    → Near k (s * s) (r * 10 ^ 8)
    → Close 10 (k * 10 ^ 8) n (6 * 10 ^ 8)
printed-Close b s n r k hb hs seven fits near =
    let room = mul-le-mul_right {m = 70 * n} {n = b * 10 ^ 8} (s * s) fits in
    let above =
      le-of-mul-le b (10 * (r * 10 ^ 8 * 10 ^ 8)) (10 * (n * (s * s)) + s * s * 10 ^ 8) hb
        (omega arith) in
    let below =
      le-of-mul-le b (10 * (n * (s * s))) (10 * (r * 10 ^ 8 * 10 ^ 8) + s * s * 10 ^ 8) hb
        (omega arith) in
    let pos_square = mul-le-mul hs hs in
    (
      le-of-mul-le (s * s) (10 * (k * 10 ^ 8)) (10 * n + 6 * 10 ^ 8) (omega arith) (omega arith),
      le-of-mul-le (s * s) (10 * n) (10 * (k * 10 ^ 8) + 6 * 10 ^ 8) (omega arith) (omega arith),
    )

pub cost-Close :
    (p a b : ℕ)
    → 70 * (a * b) ≤ 2 ^ p * 10 ^ 8
    → Close 10 (cost p a b * 10 ^ 8) (a * b) (6 * 10 ^ 8)
cost-Close p a b fits =
    let s = 2 ^ (p + 32) in
    let r = round p (mant p a * mant p b) 1 in
    let wa = mant-Within p a in
    let wb = mant-Within p b in
    let hb = pow_pos p in
    let above =
      Thrice-above (2 ^ p) (mant p a * 10 ^ 8) (a * s) (mant p b * 10 ^ 8) (b * s) hb wa.0 wb.0 in
    let below =
      Thrice-below (2 ^ p) (mant p a * 10 ^ 8) (a * s) (mant p b * 10 ^ 8) (b * s) hb wa wb.1 in
    let seven =
      again-Seven (2 ^ p) (10 ^ 8) r (mant p a) (mant p b) (a * s * (b * s))
        (round_one-Within p (mant p a * mant p b) hb) (above, below) hb in
    printed-Close (2 ^ p) s (a * b) r (cost p a b) hb (pow_pos (p + 32)) (omega arith) fits (
      rw (← pow_add (p + 32) (p + 32))
        (nearest-Near (r * 10 ^ 8) (2 ^ ((p + 32) + (p + 32))) (pow_pos ((p + 32) + (p + 32)))))
