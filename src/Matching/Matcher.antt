-- ===== src/Matching/Matcher.antt =====
-- matcher.go: the choice of a counterpart, and the engine's numbers (128 bits).
use multi_trade_platform.Base.{
  ℕ, Bool, true, false, List, [], ◌∷◌, Option, none, some, ◌==◌, if◌then◌else◌,
}
use multi_trade_platform.Decimal.BigFloat.{Float, cmp, less, greater}
use multi_trade_platform.Decimal.Exact.{of_column}
use multi_trade_platform.Store.{
  M, pure, ◌>>=◌, Order, Side, buy, sell, OrderStatus, filled, partially_filled,
}
use multi_trade_platform.Order.Repository.{get_open_orders_for_matching}

abbrev pub engine_precision : ℕ
engine_precision = 128

-- mustParseBig of a column's text (`set_string-column`).
abbrev pub must_parse_big : ℕ → Float
must_parse_big c = of_column engine_precision c

-- a.Cmp(b) <= 0 and a.Cmp(b) >= 0
abbrev pub le_float : Float → Float → Bool
le_float a b = elim (cmp a b) [ greater ↦ false | _ ↦ true ]

abbrev pub ge_float : Float → Float → Bool
ge_float a b = elim (cmp a b) [ less ↦ false | _ ↦ true ]

-- Whether the candidate's price crosses the price of an order on the given side.
unfoldable pub crosses : Side → ℕ → ℕ → Bool
crosses buy incoming candidate = le_float (must_parse_big candidate) (must_parse_big incoming)
crosses sell incoming candidate = ge_float (must_parse_big candidate) (must_parse_big incoming)

-- The loop over the candidates: skip the user's own orders, return the first that crosses.
unfoldable pub first_crossing : Order → List Order → Option Order
unfolding crosses
first_crossing incoming [] = none
first_crossing incoming (c ∷ cs) =
    if c.user_id == incoming.user_id
    then first_crossing incoming cs
    else if crosses incoming.side incoming.price c.price
    then some c
    else first_crossing incoming cs

unfoldable pub find_best_candidate : ℕ → Side → Order → M (Option Order)
find_best_candidate asset_id side incoming = do
  candidates ← get_open_orders_for_matching asset_id side
  pure (first_crossing incoming candidates)

-- newStatus
unfoldable pub new_status : Float → Float → OrderStatus
new_status done total = if ge_float done total then filled else partially_filled

-- minBig
unfoldable pub min_big : Float → Float → Float
min_big a b = if le_float a b then a else b
