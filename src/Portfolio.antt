-- ===== src/Portfolio.antt =====
-- internal/portfolio: the repository's statements and the portfolio service.
pub mod Effects
use multi_trade_platform.Base.{
  ℕ, ◌+◌, ◌-◌, ◌*◌, ◌/◌, Bool, ◌&&◌, ◌||◌, List, [], ◌∷◌, ◌++◌, Option, none, some, ltb, leb, ◌==◌,
  find_row, update_rows, select,
}
use multi_trade_platform.Decimal.BigFloat.{NumText}
use multi_trade_platform.Store.{
  M, pure, or_fail, fail_if, modify, read_db, statement, ◌>>=◌, ◌>>◌, Error, Db, Holding, numeric,
  non_negative, numeric_limit,
}

abbrev pub is_holding : ℕ → ℕ → Holding → Bool
is_holding user_id asset_id h = h.user_id == user_id && h.asset_id == asset_id

unfoldable pub get_holding : ℕ → ℕ → M Holding
get_holding user_id asset_id = statement (do
  db ← read_db
  or_fail (find_row (is_holding user_id asset_id) db.holdings) Error.holding_not_found)

-- The average price, to the nearest 10^-8. (The quotient of two NUMERIC values has more digits.)
abbrev pub average_price : Holding → ℕ → ℕ → ℕ
average_price h qty price =
    let total = h.quantity + qty in
    (2 * (h.quantity * h.average_buy_price + qty * price) + total) / (2 * total)

abbrev pub bought : ℕ → ℕ → Holding → Holding
bought qty price h = record h {
  quantity = h.quantity + qty;
  average_buy_price = average_price h qty price;
}

-- INSERT … ON CONFLICT (user_id, asset_id) DO UPDATE. A division by zero and a value that the column
-- does not hold are errors.
unfoldable pub store_bought : ℕ → ℕ → ℕ → ℕ → Option Holding → M (Unit {0})
store_bought user_id asset_id qty price none =
    let h : Holding = record {
      user_id = user_id;
      asset_id = asset_id;
      quantity = qty;
      average_buy_price = price;
    } in
    modify (λ db. record db { holdings = db.holdings ++ h ∷ [] })
store_bought user_id asset_id qty price (some h) = do
  fail_if
      (h.quantity + qty == 0
        || leb numeric_limit (h.quantity + qty)
        || leb numeric_limit (average_price h qty price))
      Error.refused
  modify (λ db. record db {
    holdings = update_rows (is_holding user_id asset_id) (bought qty price) db.holdings;
  })

unfoldable pub upsert_buyer_holding : ℕ → ℕ → NumText → NumText → M (Unit {0})
unfolding store_bought
upsert_buyer_holding user_id asset_id qty price = statement (do
  q ← or_fail (non_negative (numeric qty)) Error.refused
  p ← or_fail (non_negative (numeric price)) Error.refused
  db ← read_db
  store_bought user_id asset_id q p (find_row (is_holding user_id asset_id) db.holdings))

abbrev pub sold : ℕ → Holding → Holding
sold qty h = record h { quantity = h.quantity - qty }

-- CHECK (quantity >= 0). Where there is no such row the statement changes none, and succeeds.
unfoldable pub store_sold : ℕ → ℕ → ℕ → Option Holding → M (Unit {0})
store_sold user_id asset_id qty none = pure tt
store_sold user_id asset_id qty (some h) = do
  fail_if (ltb h.quantity qty) Error.refused
  modify (λ db. record db {
    holdings = update_rows (is_holding user_id asset_id) (sold qty) db.holdings;
  })

unfoldable pub reduce_seller_holding : ℕ → ℕ → NumText → M (Unit {0})
unfolding store_sold
reduce_seller_holding user_id asset_id qty = statement (do
  q ← or_fail (non_negative (numeric qty)) Error.refused
  db ← read_db
  store_sold user_id asset_id q (find_row (is_holding user_id asset_id) db.holdings))

abbrev held_by : ℕ → Holding → Bool
held_by user_id h = h.user_id == user_id

unfoldable pub list_holdings : ℕ → M (List Holding)
list_holdings user_id = statement (do db ← read_db; pure (select (held_by user_id) db.holdings))

-- The service hands the repository's answer on.
unfoldable pub get_my_portfolio : ℕ → M (List Holding)
get_my_portfolio user_id = list_holdings user_id
