-- ===== src/Http/Orders.antt =====
-- order_handler.go: the handlers of /orders.
use Prim.Native.String.{String}
use text.Mathlib.Text.{◌==◌ as str_eq}
use multi_trade_platform.Base.{ℕ, Bool, true, false, Option, none, some, ◌&&◌, ◌==◌, if◌then◌else◌}
use multi_trade_platform.Base.Int.{ℤ}
use multi_trade_platform.Store.{World, Error, Order}
use multi_trade_platform.Order.Service.{
  PlaceOrderInput, Placement, place_order, cancel_order, get_order, list_orders,
}
use multi_trade_platform.Http.{
  Reply, Handler, reply, refuse, refuse_with, must_user_id, bound, with_path_id, respond_with,
  order_body, orders_body,
}

-- A missing header is the empty text.
abbrev pub with_header : String → PlaceOrderInput → PlaceOrderInput
with_header header input =
    if str_eq header "" then input else record input { idempotency_key = some header }

abbrev pub place_order_failure : Error → Reply
place_order_failure Error.order_insufficient_funds = refuse_with 422 Error.order_insufficient_funds
place_order_failure Error.order_insufficient_holding =
    refuse_with 422 Error.order_insufficient_holding
place_order_failure Error.order_asset_not_active = refuse_with 400 Error.order_asset_not_active
place_order_failure Error.asset_not_found = refuse 404 "asset not found"
place_order_failure e = refuse 500 "could not place order"

abbrev is_given : Option String → Bool
is_given none = false
is_given (some key) = true

-- The zero time is number 0.
abbrev pub place_order_reply : PlaceOrderInput → Placement → Reply
place_order_reply input p =
    reply (if is_given input.idempotency_key && p.order.created_at == 0 then 200 else 201)
      (order_body p.order)

abbrev pub place_bound : ℕ → PlaceOrderInput → Handler World
place_bound user_id input w =
    respond_with (place_order_reply input) place_order_failure (place_order user_id input) w

unfoldable pub place_order_handler : Option ℕ → Option PlaceOrderInput → String → Handler World
place_order_handler user body header w =
    bound body (λ input. place_bound (must_user_id user) (with_header header input)) w

abbrev pub cancel_order_failure : Error → Reply
cancel_order_failure Error.order_not_found = refuse 404 "order not found"
cancel_order_failure Error.order_not_owned = refuse_with 403 Error.order_not_owned
cancel_order_failure Error.order_not_cancellable = refuse_with 422 Error.order_not_cancellable
cancel_order_failure e = refuse 500 "could not cancel order"

abbrev pub order_reply : Order → Reply
order_reply o = reply 200 (order_body o)

unfoldable pub cancel_order_handler : Option ℕ → Option ℤ → Handler World
cancel_order_handler user id w =
    with_path_id id
      (λ order_id.
        respond_with order_reply cancel_order_failure (cancel_order (must_user_id user) order_id))
      w

abbrev pub get_order_failure : Error → Reply
get_order_failure Error.order_not_found = refuse 404 "order not found"
get_order_failure Error.order_not_owned = refuse 404 "order not found"
get_order_failure e = refuse 500 "could not retrieve order"

unfoldable pub get_order_handler : Option ℕ → Option ℤ → Handler World
get_order_handler user id w =
    with_path_id id
      (λ order_id.
        respond_with order_reply get_order_failure (get_order (must_user_id user) order_id))
      w

abbrev list_orders_failure : Error → Reply
list_orders_failure e = refuse 500 "could not list orders"

unfoldable pub list_orders_handler : Option ℕ → ℕ → ℕ → Handler World
list_orders_handler user page page_size w =
    respond_with (λ p. reply 200 (orders_body p)) list_orders_failure
      (list_orders (must_user_id user) page page_size) w
