-- ===== src/Decimal/Laws.antt =====
-- pkg/decimal on the amounts of the database: NUMERIC(20, 8) columns are read, added, subtracted,
-- compared and printed without error, and products are off by less than a unit.
use native.Mathlib.Nat.{mul-le-mul}
use multi_trade_platform.Base.{
  ℕ, ap, Bool, inl, inr, zero, suc, ◌+◌, ◌-◌, ◌*◌, ◌^◌, ◌≤◌, ◌<◌, ◌≡◌, refl, arith, true, false,
  some, none, Option, err, ◌||◌, ◌==◌, if◌then◌else◌,
}
use multi_trade_platform.Decimal.BigFloat.{number, NumText, Float, set_string}
use multi_trade_platform.Decimal.Exact.{
  column, of_column, format-of_column, add-exact, sub-exact, Close,
}
use multi_trade_platform.Decimal.Product.{cost, format-mul, cost-Close}
use multi_trade_platform.Decimal.Sign.{IsPositive-text, not-IsPositive-text}
use multi_trade_platform.Decimal.{
  precision, must_parse, parse, format, add, sub, mul, parse_positive, non_positive,
}

-- What a column of type NUMERIC(20, 8) can hold.
abbrev pub IsNumeric : ℕ → Type 0
IsNumeric c = c < 10 ^ 20

-- Two texts are read, an operation is applied and the result is printed.
abbrev pub through : (Float → Float → Float) → NumText → NumText → Option NumText
through op s t = elim (must_parse s) [
  | none ↦ none
  | some f ↦ elim (must_parse t) [ none ↦ none | some g ↦ some (format (op f g)) ]
]

must_parse-column : (c : ℕ) → must_parse (column c) ≡ some (of_column precision c)
unfolding must_parse parse set_string
must_parse-column c = refl

through-columns :
    (op : Float → Float → Float) (a b : ℕ)
    → through op (column a) (column b)
      ≡ some (format (op (of_column precision a) (of_column precision b)))
unfolding must_parse parse set_string
through-columns op a b = refl

-- Reading a NUMERIC(20, 8) column with MustParse and printing it with Format gives its text back.
pub format-must_parse :
    (c : ℕ) → IsNumeric c → (f : Float) × (must_parse (column c) ≡ some f) × (format f ≡ column c)
unfolding format
format-must_parse c h =
    (of_column precision c, must_parse-column c, format-of_column precision c (omega arith))

-- Add on two NUMERIC(20, 8) columns, read with MustParse and printed with Format, is the exact sum.
pub through-add :
    (a b : ℕ)
    → IsNumeric a
    → IsNumeric b
    → through add (column a) (column b) ≡ some (column (a + b))
unfolding format add
through-add a b ha hb =
    rw (through-columns add a b) (ap some (add-exact precision a b (omega arith)))

-- Sub of a NUMERIC(20, 8) column and one that is not larger is the exact difference.
pub through-sub :
    (a b : ℕ) → IsNumeric a → b ≤ a → through sub (column a) (column b) ≡ some (column (a - b))
unfolding format sub
through-sub a b ha le =
    rw (through-columns sub a b) (ap some (sub-exact precision a b le (omega arith)))

product-bound : (a b : ℕ) → IsNumeric a → IsNumeric b → a * b ≤ 10 ^ 20 * 10 ^ 20
product-bound a b ha hb =
    mul-le-mul {n₁ = a} {m₁ = b} {n₂ = 10 ^ 20} {m₂ = 10 ^ 20} (omega arith) (omega arith)

-- Mul of two NUMERIC(20, 8) columns prints some k with |k * 10^8 - a * b| ≤ 0.6 * 10^8: the product
-- in units of 10^-8, rounded to a neighbouring unit.
pub through-mul :
    (a b : ℕ)
    → IsNumeric a
    → IsNumeric b
    → (k : ℕ) × (through mul (column a) (column b) ≡ some (column k))
      × Close 10 (k * 10 ^ 8) (a * b) (6 * 10 ^ 8)
unfolding format mul
through-mul a b ha hb = (
  cost precision a b,
  rw (through-columns mul a b) (ap some (format-mul precision a b)),
  cost-Close precision a b (omega (arith, product-bound a b ha hb)),
)

-- ParsePositive accepts exactly the positive numbers, whatever their decimal places: one with a minus
-- sign or the coefficient 0 is refused as non-positive, and any other is parsed as Parse does.
pub parse_positive_lem :
    (sign : Bool) (c places : ℕ)
    → parse_positive (number sign c places)
      ≡ (if sign || c == 0 then err non_positive else parse (number sign c places))
unfolding parse_positive parse
parse_positive_lem true c places =
    let (f, e, not_greater) = not-IsPositive-text precision c places true (inl refl) in
    rw (e, parse_positive) (ground arith)
parse_positive_lem false zero places =
    let (f, e, not_greater) = not-IsPositive-text precision 0 places false (inr refl) in
    rw (e, parse_positive) (ground arith)
parse_positive_lem false (suc c) places =
    let (f, e, is_greater) = IsPositive-text precision (suc c) places (omega arith) (omega arith) in
    ground arith
