-- ===== src/Trade.antt =====
-- internal/trade: the repository's statements and the trade service.
pub mod Effects
use multi_trade_platform.Base.{ℕ, Bool, ◌||◌, List, [], ◌∷◌, ◌++◌, ◌==◌, select}
use multi_trade_platform.Base.Newest.{newest_first}
use multi_trade_platform.Decimal.BigFloat.{NumText}
use multi_trade_platform.Store.{
  M, pure, or_fail, fail_if, modify, read_db, next_serial, statement, ◌>>=◌, ◌>>◌, Error, Db, Trade,
  Order, numeric, non_negative,
}

-- Insert. CHECK (price > 0) and CHECK (quantity > 0).
unfoldable pub insert : Order → Order → NumText → NumText → M Trade
insert buy_order sell_order price quantity = statement (do
  p ← or_fail (non_negative (numeric price)) Error.refused
  q ← or_fail (non_negative (numeric quantity)) Error.refused
  fail_if (p == 0 || q == 0) Error.refused
  id ← next_serial
  let t : Trade = record {
    id = id;
    buy_order_id = buy_order.id;
    sell_order_id = sell_order.id;
    asset_id = buy_order.asset_id;
    price = p;
    quantity = q;
    buyer_id = buy_order.user_id;
    seller_id = sell_order.user_id;
  }
  modify (λ db. record db { trades = db.trades ++ t ∷ [] })
  pure t)

abbrev takes_part : ℕ → Trade → Bool
takes_part user_id t = t.buyer_id == user_id || t.seller_id == user_id

-- GetByUserID: ORDER BY created_at DESC. Ids and times grow together (`serial`), so
-- the id stands for the time, a column that the row leaves out.
unfoldable pub get_by_user_id : ℕ → M (List Trade)
get_by_user_id user_id =
    statement
      (do db ← read_db; pure (newest_first Trade.id (select (takes_part user_id) db.trades)))

-- The service hands the answer of GetByUserID on.
unfoldable pub service_by_user_id : ℕ → M (List Trade)
service_by_user_id user_id = get_by_user_id user_id
