-- ===== src/Order/Repository/Effects.antt =====
-- What the statements of the order repository have done when they succeed.
use multi_trade_platform.Base.{
  ℕ, ◌+◌, ◌≤◌, ◌≡◌, arith, Option, none, some, ok, find_row, Option-cases, inl, inr,
}
use multi_trade_platform.Decimal.BigFloat.{NumText}
use multi_trade_platform.Decimal.Exact.{column}
use multi_trade_platform.Store.{◌>>=◌, ◌>>◌, World, Order, OrderStatus, numeric, non_negative}
use multi_trade_platform.Store.Laws.{served, statement-ok}
use multi_trade_platform.Store.Numeric.{non_negative-column_eq}
use multi_trade_platform.Order.Repository.{
  has_id, get_by_id_for_update, add_fill, store_fill, update_fill,
}

pub get_by_id_for_update-ok :
    (id : ℕ) (w : World) (o : Order) (w' : World)
    → get_by_id_for_update id w ≡ (ok o, w')
    → (find_row (has_id id) w.db.orders ≡ some o) × (w'.db ≡ w.db)
unfolding get_by_id_for_update ◌>>=◌
get_by_id_for_update-ok id w o w' e = let done = statement-ok _ w o w' e in ground arith

store_fill-ok :
    (id n : ℕ) (status : OrderStatus) (row : Option Order) (o : Order) (w : World) (a : Unit {0})
    (w' : World)
    → row ≡ some o
    → store_fill id n status row w ≡ (ok a, w')
    → (o.filled_quantity + n ≤ o.quantity)
      × (w'.db ≡ record w.db { orders = add_fill id n status w.db.orders })
unfolding store_fill ◌>>◌
store_fill-ok id n status none o w a w' h e = cc
store_fill-ok id n status (some x) o w a w' h e = ground arith

-- An update of an order that is there stays within its quantity.
pub update_fill-ok :
    (id n : ℕ) (added : NumText) (status : OrderStatus) (o : Order) (w : World) (a : Unit {0})
    (w' : World)
    → added ≡ column n
    → find_row (has_id id) w.db.orders ≡ some o
    → update_fill id added status w ≡ (ok a, w')
    → (o.filled_quantity + n ≤ o.quantity)
      × (w'.db ≡ record w.db { orders = add_fill id n status w.db.orders })
unfolding update_fill ◌>>=◌
update_fill-ok id n added status o w a w' text found e =
    let done = statement-ok _ w a w' e in
    elim (Option-cases (non_negative (numeric added))) [
      | inl h ↦ absurd (ground arith)
      | inr (m, h) ↦
          let same : m ≡ n = non_negative-column_eq n m (rw (← text) h) in
          store_fill-ok id n status (find_row (has_id id) w.db.orders) o (served w) a w' found
            (rw (← same) (ground arith))
    ]
