-- ===== src/Decimal/Sign.antt =====
-- The sign of a text that was read, for every precision and every number of decimal places.
use native.Mathlib.Nat.{mul-le-mul, mul-le-mul_left, mul-le-mul_right, pow-suc, zero-mul, mul-one}
use native.Mathlib.Decide.{dec_lt}
use multi_trade_platform.Base.{
  ℕ, zero, suc, ◌+◌, ◌-◌, ◌*◌, ◌^◌, ◌≤◌, ◌<◌, ◌≡◌, ◌≢◌, arith, true, false, Bool, some, Bool-cases,
  ltb, inl, inr, ◌⊎◌,
}
use multi_trade_platform.Decimal.BigFloat.{
  Float, cmp, less, equal, greater, round, read, set_string, number,
}
use multi_trade_platform.Decimal.Rounding.{Within, round-Within, round_zero, round_one-Within}
use multi_trade_platform.Decimal.Exact.{pow_pos, pow_add, of_column}

ten_pow_pos : (k : ℕ) → 0 < 10 ^ k
ten_pow_pos zero = omega arith
ten_pow_pos (suc k) = rw (pow-suc 10 k) (omega (arith, ten_pow_pos k))

ten_pow-le : (k : ℕ) → 10 ^ k ≤ 2 ^ (4 * k)
ten_pow-le zero = omega arith
ten_pow-le (suc k) =
    let e : 4 * suc k ≡ 4 * k + 4 = omega arith in
    rw (e, pow_add (4 * k) 4, pow-suc 10 k) (omega (arith, ten_pow-le k))

room : (p c k : ℕ) → 0 < c → 2 ^ p * 10 ^ k ≤ c * 2 ^ (p + 4 * k)
room p c k h = rw (pow_add p (4 * k)) (
    omega (
      arith,
      mul-le-mul_left {m = 10 ^ k} {n = 2 ^ (4 * k)} (2 ^ p) (ten_pow-le k),
      mul-le-mul_right {m = 1} {n = c} (2 ^ p * 2 ^ (4 * k)) h,
    ))

pos-of-Within : (b m d n : ℕ) → 1 < b → 0 < n → Within b (m * d) n → 0 < m
pos-of-Within b zero d n hb hn w = absurd (
    omega (arith, zero-mul d, w.1, mul-le-mul {n₁ = 2} {m₁ = n} {n₂ = b} {m₂ = n} hb (omega arith)))
pos-of-Within b (suc m) d n hb hn w = omega arith

significand_pos : (p c k : ℕ) → 1 < 2 ^ p → 0 < c → 0 < round p (c * 2 ^ (p + 4 * k)) (10 ^ k)
significand_pos p c k hp h =
    pos-of-Within (2 ^ p) (round p (c * 2 ^ (p + 4 * k)) (10 ^ k)) (10 ^ k) (c * 2 ^ (p + 4 * k)) hp
      (omega (arith, pow_pos (p + 4 * k), mul-le-mul_right {m = 1} {n = c} (2 ^ (p + 4 * k)) h))
      (round-Within p (c * 2 ^ (p + 4 * k)) (10 ^ k) (ten_pow_pos k) (pow_pos p) (room p c k h))

significand_zero : (p k : ℕ) → round p (0 * 2 ^ (p + 4 * k)) (10 ^ k) ≡ 0
significand_zero p k =
    rw (zero-mul (2 ^ (p + 4 * k)), round_zero p (10 ^ k) (ten_pow_pos k) (pow_pos p))

abbrev pub zero_float : Float
zero_float = record { neg = false; mant = 0; scale = 0 }

module _ (m s : ℕ) where
  unit_shift : m * 2 ^ (0 - s) ≡ m
  unit_shift = let e : 0 - s ≡ 0 = omega arith in rw e (omega arith)

  cmp_zero_pos : 0 < m → cmp (record { neg = false; mant = m; scale = s }) zero_float ≡ greater
  unfolding cmp
  cmp_zero_pos h = ground (arith, unit_shift)

  cmp_zero_zero : m ≡ 0 → cmp (record { neg = false; mant = m; scale = s }) zero_float ≡ equal
  unfolding cmp
  cmp_zero_zero h = ground (arith, unit_shift)

  cmp_zero_neg : cmp (record { neg = true; mant = m; scale = s }) zero_float ≢ greater
  unfolding cmp
  cmp_zero_neg h = ground (arith, unit_shift)

-- A negative number is below zero,
pub cmp_zero_less :
    (m s : ℕ) → 0 < m → cmp (record { neg = true; mant = m; scale = s }) zero_float ≡ less
unfolding cmp
cmp_zero_less m s h = ground (arith, unit_shift m s)

pub round_pos : (p n : ℕ) → 1 < 2 ^ p → 0 < n → 0 < round p n 1
round_pos p n hp h =
    pos-of-Within (2 ^ p) (round p n 1) 1 n hp h (omega (arith, round_one-Within p n (pow_pos p)))

pub cmp-read_pos : (p c k : ℕ) → 1 < 2 ^ p → 0 < c → cmp (read p false c k) zero_float ≡ greater
unfolding read
cmp-read_pos p c k hp h =
    cmp_zero_pos (round p (c * 2 ^ (p + 4 * k)) (10 ^ k)) (p + 4 * k) (significand_pos p c k hp h)

pub cmp-read_zero : (p k : ℕ) → cmp (read p false 0 k) zero_float ≡ equal
unfolding read
cmp-read_zero p k =
    cmp_zero_zero (round p (0 * 2 ^ (p + 4 * k)) (10 ^ k)) (p + 4 * k) (significand_zero p k)

pub cmp-read_neg : (p c k : ℕ) → cmp (read p true c k) zero_float ≢ greater
unfolding read
cmp-read_neg p c k = cmp_zero_neg (round p (c * 2 ^ (p + 4 * k)) (10 ^ k)) (p + 4 * k)

scaled_pos : (c j : ℕ) → 0 < c → 0 < c * 10 ^ j
scaled_pos c j h =
    omega (arith, mul-le-mul {n₁ = 1} {m₁ = 1} {n₂ = c} {m₂ = 10 ^ j} h (ten_pow_pos j))

cmp-read_refused :
    (p c k : ℕ) (sign : Bool) → (sign ≡ true) ⊎ (c ≡ 0) → cmp (read p sign c k) zero_float ≢ greater
cmp-read_refused p c k true h = cmp-read_neg p c k
cmp-read_refused p c k false (inl e) = cc
cmp-read_refused p c k false (inr e) = rw (e, cmp-read_zero p k) (λ e'. cc)

-- What a text stands for is positive exactly when it has no sign and a coefficient that is not zero.
pub IsPositive-text :
    (p c k : ℕ)
    → 1 < 2 ^ p
    → 0 < c
    → (f : Float) × (set_string p (number false c k) ≡ some f) × (cmp f zero_float ≡ greater)
unfolding set_string
IsPositive-text p c k hp h = elim (Bool-cases (ltb k 8)) [
  | inl short ↦ (
    read p false (c * 10 ^ (8 - k)) 8,
    rw short,
    cmp-read_pos p (c * 10 ^ (8 - k)) 8 hp (scaled_pos c (8 - k) h),
  )
  | inr long ↦ (read p false c k, rw long, cmp-read_pos p c k hp h)
]

still_zero : {P : Type 0} (c j : ℕ) → P ⊎ (c ≡ 0) → P ⊎ (c * j ≡ 0)
still_zero c j (inl h) = inl h
still_zero c j (inr e) = inr (rw e (zero-mul j))

pub not-IsPositive-text :
    (p c k : ℕ) (sign : Bool)
    → (sign ≡ true) ⊎ (c ≡ 0)
    → (f : Float) × (set_string p (number sign c k) ≡ some f) × (cmp f zero_float ≢ greater)
unfolding set_string
not-IsPositive-text p c k sign h = elim (Bool-cases (ltb k 8)) [
  | inl short ↦ (
    read p sign (c * 10 ^ (8 - k)) 8,
    rw short,
    cmp-read_refused p (c * 10 ^ (8 - k)) 8 sign (still_zero c (10 ^ (8 - k)) h),
  )
  | inr long ↦ (read p sign c k, rw long, cmp-read_refused p c k sign h)
]

pub set_string_short :
    (p c k : ℕ) → k ≤ 8 → set_string p (number false c k) ≡ some (of_column p (c * 10 ^ (8 - k)))
unfolding set_string read
set_string_short p c k h = elim (dec_lt k 8) [
  | yes short ↦ ground arith
  | no long ↦ let e : k ≡ 8 = omega arith in rw e (rw (mul-one c))
]

pub cmp-column_pos : (p c : ℕ) → 1 < 2 ^ p → 0 < c → cmp (of_column p c) zero_float ≡ greater
unfolding read
cmp-column_pos p c hp h = cmp-read_pos p c 8 hp h

pub cmp-column_zero : (p : ℕ) → cmp (of_column p 0) zero_float ≡ equal
unfolding read
cmp-column_zero p = cmp-read_zero p 8
