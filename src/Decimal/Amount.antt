-- ===== src/Decimal/Amount.antt =====
-- Significands that stand for a whole number of units of 10^-8 at any scale: a column's, and a product
-- of two columns where that is a whole number of units.
use native.Mathlib.Nat.{mul-le-mul_right}
use native.Mathlib.Decide.{dec_lt}
use multi_trade_platform.Base.{
  ℕ, suc, max, ◌+◌, ◌-◌, ◌*◌, ◌^◌, ◌≤◌, ◌<◌, ◌≡◌, ◌≢◌, refl, ap, arith, true, false, ltb,
  if◌then◌else◌, Bool-cases, inl, inr, ltb→lt,
}
use multi_trade_platform.Decimal.BigFloat.{Float, round, aligned, add, sub, mul, cmp, less, format}
use multi_trade_platform.Decimal.Rounding.{round_one-Within, nearest_unique}
use multi_trade_platform.Decimal.Sign.{zero_float, cmp_zero_less, round_pos}
use multi_trade_platform.Decimal.Exact.{
  column, of_column, mant, Fits, Close, pow_pos, pow_add, le-of-mul-le, mant-Within, Within-Close,
  Within-mul, mant-Close,
}
use multi_trade_platform.Decimal.Product.{Thrice-above, Thrice-below, again-Seven}

-- z * 2^-s lies within a tenth of a unit of c * 10^-8.
abbrev pub IsAmount : ℕ → ℕ → ℕ → Type 0
IsAmount s z c = Close 10 (z * 10 ^ 8) (c * 2 ^ s) (2 ^ s)

pub shift-IsAmount : (s j z c : ℕ) → IsAmount s z c → IsAmount (s + j) (z * 2 ^ j) c
shift-IsAmount s j z c h = rw (pow_add s j) (
  omega
      (arith, mul-le-mul_right {m = 10 * (z * 10 ^ 8)} {n = 10 * (c * 2 ^ s) + 2 ^ s} (2 ^ j) h.0),
  omega
      (arith, mul-le-mul_right {m = 10 * (c * 2 ^ s)} {n = 10 * (z * 10 ^ 8) + 2 ^ s} (2 ^ j) h.1),
)

pub again-IsAmount :
    (p s c n : ℕ)
    → Fits p (c + 1)
    → n * 10 ^ 8 ≤ (c + 1) * 2 ^ s
    → Close 10 (round p n 1 * 10 ^ 8) (n * 10 ^ 8) (2 ^ s)
again-IsAmount p s c n fits le =
    Within-Close (2 ^ p) 10 (round p n 1 * 10 ^ 8) (n * 10 ^ 8) (2 ^ s) (pow_pos p)
      (Within-mul (2 ^ p) (10 ^ 8) (round p n 1) n (round_one-Within p n (pow_pos p)))
      (omega (arith, le, mul-le-mul_right {m = 10 * (c + 1 + 1)} {n = 2 ^ p} (2 ^ s) fits))

pub format-near :
    (s c z : ℕ)
    → Close 10 (z * 10 ^ 8) (c * 2 ^ s) (4 * 2 ^ s)
    → format (record { neg = false; mant = z; scale = s }) ≡ column c
unfolding format
format-near s c z close =
    rw (nearest_unique c (z * 10 ^ 8) (2 ^ s) (omega (arith, pow_pos s)) (omega (arith, pow_pos s)))

module _ (p s x y a b : ℕ) (hx : IsAmount s x a) (hy : IsAmount s y b) where
  sum-near :
      Fits p (a + b + 1)
      → format (record { neg = false; mant = round p (x + y) 1; scale = s }) ≡ column (a + b)
  sum-near fits =
      let again = again-IsAmount p s (a + b) (x + y) fits (omega arith) in
      format-near s (a + b) (round p (x + y) 1) (omega arith)

  amounts_le : y ≤ x → b ≤ a
  amounts_le le = elim (dec_lt a b) [
    | yes lt ↦ absurd (omega (arith, pow_pos s, mul-le-mul_right {m = suc a} {n = b} (2 ^ s) lt))
    | no ge ↦ omega arith
  ]

  difference-near :
      y ≤ x
      → Fits p (a + 1)
      → format (record { neg = false; mant = round p (x - y) 1; scale = s }) ≡ column (a - b)
  difference-near le fits =
      let ordered = amounts_le le in
      let again = again-IsAmount p s a (x - y) fits (omega arith) in
      let parts : (a - b) + b ≡ a = omega arith in
      let units = ap (λ (c : ℕ). c * 2 ^ s) parts in
      format-near s (a - b) (round p (x - y) 1) (omega arith)

product-near :
    (b z c n t : ℕ)
    → 0 < b
    → 70 * c ≤ b
    → n ≡ c * 10 ^ 8 * t
    → (b * (z * 10 ^ 8 * 10 ^ 8) ≤ b * n + 7 * n) × (b * n ≤ b * (z * 10 ^ 8 * 10 ^ 8) + 7 * n)
    → Close 10 (z * 10 ^ 8) (c * t) t
product-near b z c n t hb fits e seven =
    let room = mul-le-mul_right {m = 70 * c} {n = b} t fits in
    let scaled = ap (λ (m : ℕ). b * m) e in
    (
      le-of-mul-le b (10 * (z * 10 ^ 8)) (10 * (c * t) + t) hb (omega arith),
      le-of-mul-le b (10 * (c * t)) (10 * (z * 10 ^ 8) + t) hb (omega arith),
    )

pub product-IsAmount :
    (p q r c : ℕ)
    → q * r ≡ c * 10 ^ 8
    → 70 * c ≤ 2 ^ p
    → IsAmount ((p + 32) + (p + 32)) (round p (mant p q * mant p r) 1) c
product-IsAmount p q r c exact fits =
    let s = 2 ^ (p + 32) in
    let z = round p (mant p q * mant p r) 1 in
    let wq = mant-Within p q in
    let wr = mant-Within p r in
    let hb = pow_pos p in
    let above =
      Thrice-above (2 ^ p) (mant p q * 10 ^ 8) (q * s) (mant p r * 10 ^ 8) (r * s) hb wq.0 wr.0 in
    let below =
      Thrice-below (2 ^ p) (mant p q * 10 ^ 8) (q * s) (mant p r * 10 ^ 8) (r * s) hb wq wr.1 in
    let seven =
      again-Seven (2 ^ p) (10 ^ 8) z (mant p q) (mant p r) (q * s * (r * s))
        (round_one-Within p (mant p q * mant p r) hb) (above, below) hb in
    rw (pow_add (p + 32) (p + 32)) (
      product-near (2 ^ p) z c (q * s * (r * s)) (s * s) hb fits
        (omega (arith, ap (λ (m : ℕ). m * (s * s)) exact)) seven)

pub mul_product :
    (p q r : ℕ)
    → mul p (of_column p q) (of_column p r)
      ≡ record { neg = false; mant = round p (mant p q * mant p r) 1; scale = (p + 32) + (p + 32) }
unfolding mul
mul_product p q r = refl

abbrev pub product : ℕ → ℕ → ℕ → Float
product p q r = record {
  neg = false;
  mant = round p (mant p q * mant p r) 1;
  scale = (p + 32) + (p + 32);
}

module _ (p b q r c : ℕ) (exact : q * r ≡ c * 10 ^ 8) (fits : Fits p (b + 70 * c + 1)) where
  -- The column on the scale of the product.
  wide : ℕ
  wide = mant p b * 2 ^ (p + 32)

  wide-IsAmount : IsAmount ((p + 32) + (p + 32)) wide b
  unfolding wide
  wide-IsAmount = shift-IsAmount (p + 32) (p + 32) (mant p b) b (mant-Close p b (omega arith))

  exact-IsAmount : IsAmount ((p + 32) + (p + 32)) (round p (mant p q * mant p r) 1) c
  exact-IsAmount = product-IsAmount p q r c exact (omega arith)

  aligned-wide : aligned (of_column p b) (product p q r) ≡ wide
  unfolding wide
  aligned-wide = let e : (p + 32) + (p + 32) - (p + 32) ≡ p + 32 = omega arith in rw e

  aligned-product : aligned (product p q r) (of_column p b) ≡ round p (mant p q * mant p r) 1
  aligned-product = let e : p + 32 - ((p + 32) + (p + 32)) ≡ 0 = omega arith in rw e (omega arith)

  max_wide : max (p + 32) ((p + 32) + (p + 32)) ≡ (p + 32) + (p + 32)
  max_wide = omega arith

  -- A product that is a whole number of units is printed exactly,
  pub format-product : format (product p q r) ≡ column c
  format-product =
      let near = exact-IsAmount in
      format-near ((p + 32) + (p + 32)) c (round p (mant p q * mant p r) 1) (omega arith)

  -- added to a column exactly,
  pub add-product : format (add p (of_column p b) (product p q r)) ≡ column (b + c)
  unfolding add
  add-product =
      rw (aligned-wide, aligned-product, max_wide)
        (sum-near p ((p + 32) + (p + 32)) wide (round p (mant p q * mant p r) 1) b c wide-IsAmount
          exact-IsAmount (omega arith))

  abbrev negative : Float
  negative = record {
    neg = true;
    mant = round p (round p (mant p q * mant p r) 1 - wide) 1;
    scale = (p + 32) + (p + 32);
  }

  abbrev positive : Float
  positive = record {
    neg = false;
    mant = round p (wide - round p (mant p q * mant p r) 1) 1;
    scale = (p + 32) + (p + 32);
  }

  sub_shape :
      sub p (of_column p b) (product p q r)
      ≡ (if ltb wide (round p (mant p q * mant p r) 1) then negative else positive)
  unfolding sub
  sub_shape = rw (aligned-wide, aligned-product, max_wide)

  -- and subtracted from one exactly, unless the difference is below zero.
  pub sub-product :
      cmp (sub p (of_column p b) (product p q r)) zero_float ≢ less
      → (c ≤ b) × (format (sub p (of_column p b) (product p q r)) ≡ column (b - c))
  sub-product = elim (Bool-cases (ltb wide (round p (mant p q * mant p r) 1))) [
    | inl below ↦
        rw (sub_shape, below)
          λ h. absurd (
            h (
              cmp_zero_less _ _
                (round_pos p _ (omega (arith, fits)) (omega (arith, ltb→lt _ _ below)))))
    | inr above ↦
        rw (sub_shape, above)
          λ h.
            let le : round p (mant p q * mant p r) 1 ≤ wide = ground arith in
            (
              amounts_le p ((p + 32) + (p + 32)) wide (round p (mant p q * mant p r) 1) b c
                  wide-IsAmount exact-IsAmount le,
              difference-near p ((p + 32) + (p + 32)) wide (round p (mant p q * mant p r) 1) b c
                  wide-IsAmount exact-IsAmount le (omega arith),
            )
  ]
