-- ===== src/Decimal.antt =====
-- pkg/decimal/decimal.go: parsing, printing and arithmetic at 128 bits.
pub mod BigFloat
pub mod Rounding
pub mod Exact
pub mod Product
pub mod Whole
pub mod Sign
pub mod Amount
pub mod Laws
use multi_trade_platform.Base.{ℕ, Bool, false, Option, none, some, Result, ok, err}
use BigFloat.{NumText, malformed, Float, Order, less, equal, greater, set_string, cmp}
use BigFloat
use Sign.{zero_float}

-- Precision
abbrev pub precision : ℕ
precision = 128

pub data DecimalError : Type 0 where
  invalid_decimal non_positive negative_not_allowed : DecimalError

-- Zero
-- Parse. The empty text is one that `SetString` refuses.
unfoldable pub parse : NumText → Result DecimalError Float
parse s = elim (set_string precision s) [ none ↦ err invalid_decimal | some f ↦ ok f ]

positive : Float → Result DecimalError Float
positive f = elim (cmp f zero_float) [ greater ↦ ok f | _ ↦ err non_positive ]

-- ParsePositive
unfoldable pub parse_positive : NumText → Result DecimalError Float
unfolding positive
parse_positive s = elim (parse s) [ err e ↦ err e | ok f ↦ positive f ]

-- IsPositive and IsNegative: the sign of f.
unfoldable pub is_positive : Float → Bool
is_positive f = elim (cmp f zero_float) [ greater ↦ Bool.true | _ ↦ false ]

unfoldable pub is_negative : Float → Bool
is_negative f = elim (cmp f zero_float) [ less ↦ Bool.true | _ ↦ false ]

non_negative : Float → Result DecimalError Float
unfolding is_negative
non_negative f = elim (is_negative f) [ Bool.true ↦ err negative_not_allowed | false ↦ ok f ]

-- ParseNonNegative
unfoldable pub parse_non_negative : NumText → Result DecimalError Float
unfolding non_negative
parse_non_negative s = elim (parse s) [ err e ↦ err e | ok f ↦ non_negative f ]

-- MustParse; `none` is the panic.
unfoldable pub must_parse : NumText → Option Float
must_parse s = elim (parse s) [ err e ↦ none | ok f ↦ some f ]

-- Format
unfoldable pub format : Float → NumText
format f = BigFloat.format f

-- Add, Sub and Mul
unfoldable pub add : Float → Float → Float
add a b = BigFloat.add precision a b

unfoldable pub sub : Float → Float → Float
sub a b = BigFloat.sub precision a b

unfoldable pub mul : Float → Float → Float
mul a b = BigFloat.mul precision a b

-- Min
unfoldable pub min_float : Float → Float → Float
min_float a b = elim (cmp a b) [ greater ↦ b | _ ↦ a ]
