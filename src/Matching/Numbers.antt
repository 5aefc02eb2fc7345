-- ===== src/Matching/Numbers.antt =====
-- The engine's comparisons, on the amounts of the database: they are those of the columns.
use native.Mathlib.Decide.{dec_lt}
use multi_trade_platform.Base.{
  ℕ, zero, suc, ◌<◌, ◌≡◌, arith, Bool, ◌&&◌, none, some, ltb, leb, if◌then◌else◌, Bool-cases, inl,
  inr,
}
use multi_trade_platform.Decimal.Exact.{cmp_less, cmp_greater, cmp_equal}
use multi_trade_platform.Decimal.Sign.{cmp-column_pos, cmp-column_zero}
use multi_trade_platform.Store.{Order, Side, buy, sell, numeric_limit}
use multi_trade_platform.Order.Repository.{is_open, remaining_quantity}
use multi_trade_platform.Matching.Matcher.{
  engine_precision, must_parse_big, le_float, ge_float, crosses, min_big,
}
use multi_trade_platform.Matching.Executor.{fill_quantity, is_positive}

-- The amounts of an order fit their columns.
pub record IsStored (o : Order) : Type 0 where
  pub price_fits : o.price < numeric_limit
  pub quantity_fits : o.quantity < numeric_limit

pub le_float-columns :
    (a b : ℕ)
    → a < numeric_limit
    → b < numeric_limit
    → le_float (must_parse_big a) (must_parse_big b) ≡ leb a b
le_float-columns a b ha hb = elim (dec_lt a b) [
  | yes lt ↦ ground (arith, cmp_less engine_precision a b lt (omega arith))
  | no ge ↦ elim (dec_lt b a) [
    | yes gt ↦ ground (arith, cmp_greater engine_precision a b gt (omega arith))
    | no le ↦ let e : a ≡ b = omega arith in rw e (ground (arith, cmp_equal engine_precision b))
  ]
]

pub ge_float-columns :
    (a b : ℕ)
    → a < numeric_limit
    → b < numeric_limit
    → ge_float (must_parse_big a) (must_parse_big b) ≡ leb b a
ge_float-columns a b ha hb = elim (dec_lt a b) [
  | yes lt ↦ ground (arith, cmp_less engine_precision a b lt (omega arith))
  | no ge ↦ elim (dec_lt b a) [
    | yes gt ↦ ground (arith, cmp_greater engine_precision a b gt (omega arith))
    | no le ↦ let e : a ≡ b = omega arith in rw e (ground (arith, cmp_equal engine_precision b))
  ]
]

-- A sell order's price crosses from below, a buy order's from above.
abbrev pub prices_cross : Side → ℕ → ℕ → Bool
prices_cross buy incoming candidate = leb candidate incoming
prices_cross sell incoming candidate = leb incoming candidate

pub crosses-columns :
    (side : Side) (a b : ℕ)
    → a < numeric_limit
    → b < numeric_limit
    → crosses side a b ≡ prices_cross side a b
unfolding crosses
crosses-columns buy a b ha hb = le_float-columns b a hb ha
crosses-columns sell a b ha hb = ge_float-columns b a hb ha

abbrev pub min_units : ℕ → ℕ → ℕ
min_units a b = if leb a b then a else b

min_big-columns :
    (a b : ℕ)
    → a < numeric_limit
    → b < numeric_limit
    → min_big (must_parse_big a) (must_parse_big b) ≡ must_parse_big (min_units a b)
unfolding min_big
min_big-columns a b ha hb = elim (Bool-cases (leb a b)) [
  | inl h ↦ rw (le_float-columns a b ha hb, h)
  | inr h ↦ rw (le_float-columns a b ha hb, h)
]

pub is_positive-column : (a : ℕ) → is_positive (must_parse_big a) ≡ ltb 0 a
is_positive-column zero = ground (arith, cmp-column_zero engine_precision)
is_positive-column (suc a) = ground (arith, cmp-column_pos engine_precision (suc a))

-- What can be traded between two orders, in units of 10^-8.
abbrev pub tradable : Order → Order → ℕ
tradable b s = min_units (remaining_quantity b) (remaining_quantity s)

abbrev pub can_trade : Order → Order → Bool
can_trade b s =
    is_open b.status && (is_open s.status && (leb s.price b.price && ltb 0 (tradable b s)))

-- The engine trades two orders exactly when both are open, the sell price is at most the buy price and
-- both have something left, and then the smaller of what is left. For orders whose amounts fit.
pub fill_quantity_lem :
    (b s : Order)
    → IsStored b
    → IsStored s
    → fill_quantity b s ≡ (if can_trade b s then some (must_parse_big (tradable b s)) else none)
unfolding fill_quantity
fill_quantity_lem b s hb hs =
    rw
      (
        min_big-columns (remaining_quantity b) (remaining_quantity s)
            (omega (arith, hb.quantity_fits)) (omega (arith, hs.quantity_fits)),
        le_float-columns s.price b.price hs.price_fits hb.price_fits,
        is_positive-column (tradable b s),
      )
      (ground arith)
