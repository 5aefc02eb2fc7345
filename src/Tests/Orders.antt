-- ===== src/Tests/Orders.antt =====
-- The order service at concrete tables.
use multi_trade_platform.Base.{◌≡◌, refl, true, false, none, find_row, some}
use multi_trade_platform.Decimal.BigFloat.{number, set_string, round, nearest, ulp, cmp}
use multi_trade_platform.Store.{
  Order, OrderStatus, buy, db_failed, statement, run_tx, commit, ◌>>=◌, ◌>>◌,
}
use multi_trade_platform.Order.Repository.{
  has_id, is_open, set_status, update_status, get_by_id_for_update,
}
use multi_trade_platform.Wallet.{parse_positive_amount}
use multi_trade_platform.Order.Service.{
  PlaceOrderInput, cancel_order, place_order, with_status, find_existing, get_asset,
}
use multi_trade_platform.Order.Service.Laws.{cancel_order_effect, place_order_error}
use multi_trade_platform.Tests.Data.{world, failing, bid}

cancel_order_effect_example :
    (before : Order) × (find_row (has_id 21) world.db.orders ≡ some before)
    × (before.user_id ≡ 1)
    × (is_open before.status ≡ true)
    × (with_status OrderStatus.cancelled bid ≡ with_status OrderStatus.cancelled before)
    × ((cancel_order 1 21 world).1.db
        ≡ record world.db { orders = set_status 21 OrderStatus.cancelled world.db.orders })
unfolding cancel_order statement run_tx commit get_by_id_for_update update_status ◌>>=◌ ◌>>◌
cancel_order_effect_example =
    cancel_order_effect 1 21 world (with_status OrderStatus.cancelled bid)
      (cancel_order 1 21 world).1 refl

-- 2 at 10
abbrev input : PlaceOrderInput
input = record {
  asset_id = 5;
  side = buy;
  price = number false 10 0;
  quantity = number false 2 0;
  idempotency_key = none;
}

place_order_error_example : (place_order 1 input failing).1.db ≡ failing.db
unfolding place_order find_existing get_asset parse_positive_amount statement ◌>>=◌ set_string cmp
    round nearest ulp
place_order_error_example =
    place_order_error 1 input failing db_failed (place_order 1 input failing).1 refl
