-- ===== src/Decimal/Whole.antt =====
-- Whole numbers are read, added and compared exactly.
use native.Mathlib.Decide.{dec_lt}
use native.Mathlib.Nat.{mul-div_cancel, mul-le-mul_left, mul-le-mul_right}
use multi_trade_platform.Base.{
  ℕ, zero, suc, ◌+◌, ◌-◌, ◌*◌, ◌/◌, ◌^◌, ◌≤◌, ◌<◌, ◌≡◌, inl, inr, refl, ap, ◌∙◌, sym, subst, arith,
  ltb, Bool-cases,
}
use multi_trade_platform.Decimal.BigFloat.{ulp, round, nearest, add}
use multi_trade_platform.Decimal.Rounding.{ulp-IsUlp, nearest_unique}
use multi_trade_platform.Decimal.Exact.{mant, of_column, pow_pos, pow_add, aligned_lem, max_lem}

ulp_power : (fuel b n : ℕ) → (k : ℕ) × (ulp fuel b n ≡ 2 ^ k)
unfolding ulp
ulp_power zero b n = (0, refl)
ulp_power (suc fuel) b n =
    let (k, e) = ulp_power fuel b (n / 2) in
    elim (Bool-cases (ltb n b)) [
      | inl small ↦ (0, rw small refl)
      | inr large ↦ (k + 1, rw (large, e, pow_add k 1) (omega arith))
    ]

power-le : (j k : ℕ) → 2 ^ k < 2 * 2 ^ j → k ≤ j
power-le j k lt = elim (dec_lt j k) [
  | no h ↦ omega arith
  | yes h ↦
      let parts : k ≡ j + 1 + (k - (j + 1)) = omega arith in
      let grows : 2 ^ k ≡ 2 ^ j * 2 ^ 1 * 2 ^ (k - (j + 1)) =
        ap (λ (i : ℕ). 2 ^ i) parts ∙ rw (pow_add (j + 1) (k - (j + 1)), pow_add j 1) refl in
      let pos = pow_pos (k - (j + 1)) in
      let more = mul-le-mul_left {m = 1} {n = 2 ^ (k - (j + 1))} (2 ^ j * 2) (omega arith) in
      absurd (omega arith)
]

-- A multiple of the last place is not rounded.
nearest_multiple : (x d u : ℕ) → 0 < d → 0 < u → nearest (x * (d * u)) (d * u) * u ≡ x * u
nearest_multiple x d u pos_d pos_u =
    let pos : 0 < d * u = grind arith in
    ap (λ (y : ℕ). y * u) (nearest_unique x (x * (d * u)) (d * u) (omega arith) (omega arith))

-- A number of at most p bits, shifted by s, has its last place at 2^s or above.
place-le : (p a s k : ℕ) → a < 2 ^ p → 2 ^ p * 2 ^ k ≤ 2 * (a * 2 ^ s) → k ≤ s
place-le p a s k small bits = power-le s k (elim (dec_lt (2 ^ k) (2 * 2 ^ s)) [
  | yes lt ↦ lt
  | no ge ↦
      let grows = mul-le-mul_left {m = 2 * 2 ^ s} {n = 2 ^ k} (2 ^ p) (omega arith) in
      let fewer = mul-le-mul_right {m = suc a} {n = 2 ^ p} (2 ^ s) small in
      let pos = pow_pos s in absurd (omega arith)
])

round_place :
    (a s d k : ℕ) → 0 < d → k ≤ s → nearest (a * 2 ^ s * d) (d * 2 ^ k) * 2 ^ k ≡ a * 2 ^ s
round_place a s d k pos le =
    let parts : s ≡ k + (s - k) = omega arith in
    let split : 2 ^ s ≡ 2 ^ k * 2 ^ (s - k) = ap (λ (i : ℕ). 2 ^ i) parts ∙ pow_add k (s - k) in
    let x = a * 2 ^ (s - k) in
    let whole : a * 2 ^ s ≡ x * 2 ^ k = rw split (omega arith) in
    let scaled : a * 2 ^ s * d ≡ x * (d * 2 ^ k) = rw whole (omega arith) in
    ap (λ (n : ℕ). nearest n (d * 2 ^ k) * 2 ^ k) scaled
    ∙ nearest_multiple x d (2 ^ k) pos (pow_pos k)
    ∙ sym whole

-- n / d is a whole number of at most p bits, shifted.
pub round_whole : (p a s d : ℕ) → 0 < d → a < 2 ^ p → round p (a * 2 ^ s * d) d ≡ a * 2 ^ s
unfolding round
round_whole p a s d pos small =
    let n = a * 2 ^ s in
    let quotient : n * d / d ≡ n = mul-div_cancel n pos in
    let (k, power) = ulp_power n (2 ^ p) n in
    let is_ulp = ulp-IsUlp n (2 ^ p) n (pow_pos p) (omega arith) in
    let le : k ≤ s = elim is_ulp.1 [
      | inl one ↦ let unit : 2 ^ k ≡ 1 = sym power ∙ one in power-le s k (omega (arith, pow_pos s))
      | inr fine ↦ place-le p a s k small (subst (λ u. 2 ^ p * u ≤ 2 * n) power fine)
    ] in
    rw (quotient, power) (round_place a s d k pos le)

mant_whole : (p a : ℕ) → a < 2 ^ p → mant p (a * 10 ^ 8) ≡ a * 2 ^ (p + 32)
mant_whole p a small =
    let order : a * 10 ^ 8 * 2 ^ (p + 32) ≡ a * 2 ^ (p + 32) * 10 ^ 8 = omega arith in
    rw order (round_whole p a (p + 32) (10 ^ 8) (omega arith) small)

-- The sum of two whole amounts is the amount of the sum, without a rounding.
pub add_whole :
    (p a b : ℕ)
    → a + b < 2 ^ p
    → add p (of_column p (a * 10 ^ 8)) (of_column p (b * 10 ^ 8)) ≡ of_column p ((a + b) * 10 ^ 8)
unfolding add
add_whole p a b small =
    let sum_eq : a * 2 ^ (p + 32) + b * 2 ^ (p + 32) ≡ (a + b) * 2 ^ (p + 32) * 1 = omega arith in
    rw
      (
        aligned_lem p (a * 10 ^ 8) (b * 10 ^ 8),
        aligned_lem p (b * 10 ^ 8) (a * 10 ^ 8),
        max_lem (p + 32),
        mant_whole p a (omega arith),
        mant_whole p b (omega arith),
        mant_whole p (a + b) small,
        sum_eq,
        round_whole p (a + b) (p + 32) 1 (omega arith) small,
      )
      refl
