-- ===== src/Decimal/Rounding.antt =====
-- The rounding of `Float`: half a unit in the last place, for every precision and denominator.
use native.Mathlib.Nat.{div-add-mod, mod-lt}
use native.Mathlib.Decide.{dec_lt}
use multi_trade_platform.Base.{
  ℕ, zero, suc, ◌+◌, ◌*◌, ◌/◌, ◌%◌, ◌^◌, ◌≤◌, ◌<◌, ◌≡◌, ◌⊎◌, inl, inr, refl, arith, ltb, ltb→lt,
  Bool-cases,
}
use multi_trade_platform.Decimal.BigFloat.{nearest, ulp, round}

-- y * d is within half of d of n.
abbrev pub Near : ℕ → ℕ → ℕ → Type 0
Near y d n = (2 * (y * d) ≤ 2 * n + d) × (2 * n ≤ 2 * (y * d) + d)

Near-down : (q r d n : ℕ) → d * q + r ≡ n → 2 * r ≤ d → Near q d n
Near-down q r d n e h = omega arith

Near-up : (q r d n : ℕ) → d * q + r ≡ n → d ≤ 2 * r → r < d → Near (q + 1) d n
Near-up q r d n e h k = omega arith

nearest-choice :
    (n d : ℕ)
    → 0 < d
    → ((nearest n d ≡ n / d) × (2 * (n % d) ≤ d)) ⊎ ((nearest n d ≡ n / d + 1) × (d ≤ 2 * (n % d)))
unfolding nearest
nearest-choice n d h = ground arith

pub nearest-Near : (n d : ℕ) → 0 < d → Near (nearest n d) d n
nearest-Near n d h = elim (nearest-choice n d h) [
  | inl (e, low) ↦ rw e (Near-down (n / d) (n % d) d n (div-add-mod n d) low)
  | inr (e, high) ↦ rw e (Near-up (n / d) (n % d) d n (div-add-mod n d) high (mod-lt n h))
]

mul-suc-le : (x y d : ℕ) → x < y → x * d + d ≤ y * d
mul-suc-le x y d h = grind arith

-- Only one multiple of d is nearer than half of d.
Near-unique : (x y n d : ℕ) → Near y d n → 2 * n < 2 * (x * d) + d → 2 * (x * d) < 2 * n + d → y ≡ x
Near-unique x y n d near above below = elim (dec_lt x y) [
  | yes lt ↦ absurd (omega (arith, mul-suc-le x y d lt))
  | no ge ↦ elim (dec_lt y x) [
    | yes lt ↦ absurd (omega (arith, mul-suc-le y x d lt))
    | no le ↦ omega arith
  ]
]

pub nearest_unique :
    (x n d : ℕ) → 2 * n < 2 * (x * d) + d → 2 * (x * d) < 2 * n + d → nearest n d ≡ x
nearest_unique x n d above below =
    Near-unique x (nearest n d) n d (nearest-Near n d (grind arith)) above below

abbrev IsUlp : ℕ → ℕ → ℕ → Type 0
IsUlp u b n = (n < b * u) × ((u ≡ 1) ⊎ (b * u ≤ 2 * n))

IsUlp-double : (u b n : ℕ) → IsUlp u b (n / 2) → b ≤ n → IsUlp (2 * u) b n
IsUlp-double u b n (lt, inl e) h = (omega arith, inr (rw e (omega arith)))
IsUlp-double u b n (lt, inr le) h = (omega arith, inr (omega arith))

pub ulp-IsUlp : (fuel b n : ℕ) → 0 < b → n ≤ fuel → IsUlp (ulp fuel b n) b n
unfolding ulp
ulp-IsUlp zero b n hb h = (omega arith, inl refl)
ulp-IsUlp (suc fuel) b n hb h = elim (Bool-cases (ltb n b)) [
  | inl small ↦ rw small (let lt = ltb→lt n b small in omega arith, inl refl)
  | inr large ↦ rw large (
      IsUlp-double (ulp fuel b (n / 2)) b n (ulp-IsUlp fuel b (n / 2) hb (ground arith))
        (ground arith))
]

mul_mono : (b x y : ℕ) → x ≤ y → b * x ≤ b * y
mul_mono b x y h = grind arith

-- y * e is n up to 1 / b of it.
abbrev pub Within : ℕ → ℕ → ℕ → Type 0
Within b m n = (b * m ≤ b * n + n) × (b * n ≤ b * m + n)

Near-Within : (b y e n : ℕ) → Near y e n → b * e ≤ 2 * n → Within b (y * e) n
Near-Within b y e n near fine = (
  omega (arith, mul_mono b (2 * (y * e)) (2 * n + e) near.0),
  omega (arith, mul_mono b (2 * n) (2 * (y * e) + e) near.1),
)

mul-div-le : (n d : ℕ) → d * (n / d) ≤ n
mul-div-le n d = omega (arith, div-add-mod n d)

step_fine : (b u d n : ℕ) → (u ≡ 1) ⊎ (b * u ≤ 2 * (n / d)) → b * d ≤ n → b * (d * u) ≤ 2 * n
step_fine b u d n (inl e) h = rw e (omega arith)
step_fine b u d n (inr le) h = omega (arith, mul_mono d (b * u) (2 * (n / d)) le, mul-div-le n d)

pos-of-lt-mul : (n b u : ℕ) → n < b * u → 0 < u
pos-of-lt-mul n b zero h = absurd (omega arith)
pos-of-lt-mul n b (suc u) h = omega arith

-- A quotient of at least p bits is rounded by at most 2^-p of it.
pub round-Within :
    (p n d : ℕ) → 0 < d → 0 < 2 ^ p → 2 ^ p * d ≤ n → Within (2 ^ p) (round p n d * d) n
unfolding round
round-Within p n d hd hp h =
    let u = ulp (n / d) (2 ^ p) (n / d) in
    let is_ulp = ulp-IsUlp (n / d) (2 ^ p) (n / d) hp (omega arith) in
    let pos_u = pos-of-lt-mul (n / d) (2 ^ p) u is_ulp.0 in
    let step = step_fine (2 ^ p) u d n is_ulp.1 h in
    let near = nearest-Near n (d * u) (grind arith) in
    omega (arith, Near-Within (2 ^ p) (nearest n (d * u)) (d * u) n near step)

pub round_zero : (p d : ℕ) → 0 < d → 0 < 2 ^ p → round p 0 d ≡ 0
unfolding round
round_zero p d hd hp =
    let u = ulp (0 / d) (2 ^ p) (0 / d) in
    let is_ulp = ulp-IsUlp (0 / d) (2 ^ p) (0 / d) hp (omega arith) in
    let pos_u = pos-of-lt-mul (0 / d) (2 ^ p) u is_ulp.0 in
    let pos_step : 0 < d * u = grind arith in
    rw (nearest_unique 0 0 (d * u) (omega arith) (omega arith)) (omega arith)

-- A whole number is rounded by at most 2^-p of it.
pub round_one-Within : (p n : ℕ) → 0 < 2 ^ p → Within (2 ^ p) (round p n 1) n
unfolding round
round_one-Within p n hp =
    let u = ulp (n / 1) (2 ^ p) (n / 1) in
    let is_ulp = ulp-IsUlp (n / 1) (2 ^ p) (n / 1) hp (omega arith) in
    let pos_u = pos-of-lt-mul (n / 1) (2 ^ p) u is_ulp.0 in
    let near = nearest-Near n (1 * u) (omega arith) in
    elim is_ulp.1 [
      | inl e ↦
          let exact = nearest_unique n n (1 * u) (rw e (omega arith)) (rw e (omega arith)) in
          rw (exact, e) (omega arith)
      | inr le ↦
          omega (arith, Near-Within (2 ^ p) (nearest n (1 * u)) (1 * u) n near (omega (arith, le)))
    ]
