-- ===== src/Order/Service.antt =====
-- internal/order/service: orders are placed, cancelled, read and listed.
pub mod Laws
use Prim.Native.String.{String}
use text.Mathlib.Text.{◌==◌ as str_eq}
use multi_trade_platform.Base.{
  ℕ, suc, ◌+◌, ◌-◌, ◌*◌, ◌/◌, Bool, true, false, not, ◌||◌, List, [], ◌∷◌, ◌++◌, Option, none, some,
  Result, ok, err, ltb, ◌==◌, if◌then◌else◌, length, find_row,
}
use multi_trade_platform.Decimal.BigFloat.{NumText, Float, mul, format}
use multi_trade_platform.Store.{
  M, pure, fail, or_fail, fail_if, attempt, from_result, read_db, statement, run_tx, ◌>>=◌, ◌>>◌,
  Error, Order, Side, buy, sell, OrderStatus, Asset, AssetStatus, Wallet, Holding,
}
use multi_trade_platform.Order.Repository.{
  NewOrder, create, get_by_id, get_by_id_for_update, update_status, is_open, get_by_idempotency_key,
  list_by_user, count_by_user,
}
use multi_trade_platform.Wallet.Repository.{get_by_user_id}
use multi_trade_platform.Wallet.{wallet_precision, parse_positive_amount, must_parse_big, covers}
use multi_trade_platform.Portfolio.{get_holding}

-- dto.PlaceOrderInput
pub record PlaceOrderInput : Type 0 where
  pub asset_id : ℕ
  pub side : Side
  pub price : NumText
  pub quantity : NumText
  pub idempotency_key : Option String

abbrev pub has_asset_id : ℕ → Asset → Bool
has_asset_id id a = a.id == id

-- GetByID of the asset repository.
unfoldable pub get_asset : ℕ → M Asset
get_asset id =
    statement
      (do db ← read_db; or_fail (find_row (has_asset_id id) db.assets) Error.asset_not_found)

abbrev pub is_active : AssetStatus → Bool
is_active AssetStatus.active = true
is_active AssetStatus.disabled = false

-- What the balance check makes of the wallet that was read, or of the error.
abbrev pub wallet_covers : Float → Result Error Wallet → M (Unit {0})
wallet_covers required (err Error.wallet_not_found) = fail Error.order_insufficient_funds
wallet_covers required (err e) = fail e
wallet_covers required (ok w) =
    fail_if (not (covers (must_parse_big w.balance) required)) Error.order_insufficient_funds

unfoldable pub check_wallet_balance : ℕ → Float → M (Unit {0})
check_wallet_balance user_id required = do
  r ← attempt (get_by_user_id user_id)
  wallet_covers required r

abbrev pub holding_covers : Float → Result Error Holding → M (Unit {0})
holding_covers qty (err Error.holding_not_found) = fail Error.order_insufficient_holding
holding_covers qty (err e) = fail e
holding_covers qty (ok h) =
    fail_if (not (covers (must_parse_big h.quantity) qty)) Error.order_insufficient_holding

unfoldable pub check_asset_holding : ℕ → ℕ → Float → M (Unit {0})
check_asset_holding user_id asset_id qty = do
  r ← attempt (get_holding user_id asset_id)
  holding_covers qty r

abbrev pub check_funds : ℕ → PlaceOrderInput → Float → Float → Side → M (Unit {0})
check_funds user_id input price qty buy =
    check_wallet_balance user_id (mul wallet_precision price qty)
check_funds user_id input price qty sell = check_asset_holding user_id input.asset_id qty

-- The order that is returned, and whether it is a new one, which is offered to the matching queue.
pub record Placement : Type 0 where
  pub order : Order
  pub is_new : Bool

abbrev pub existing : Order → Placement
existing o = record { order = o; is_new = false }

abbrev pub placed : Order → Placement
placed o = record { order = o; is_new = true }

-- What the lookup of the key leads to: an order that is there, none, or an error.
abbrev pub looked_up : Result Error Order → M (Option Order)
looked_up (ok o) = pure (some o)
looked_up (err Error.order_not_found) = pure none
looked_up (err e) = fail e

-- A missing or empty key is not looked up.
unfoldable pub find_existing : ℕ → Option String → M (Option Order)
find_existing user_id none = pure none
find_existing user_id (some key) =
    if str_eq key ""
    then pure none
    else (do r ← attempt (get_by_idempotency_key user_id key); looked_up r)

-- After the insertion. A duplicate key means that the order is there already. (An order without a key
-- is never a duplicate.)
unfoldable pub after_create : ℕ → Option String → Result Error Order → M Placement
after_create user_id key (ok o) = pure (placed o)
after_create user_id (some key) (err Error.duplicate_idempotency_key) = do
  r ← attempt (get_by_idempotency_key user_id key)
  o ← from_result (elim r [ ok o ↦ ok o | err e ↦ err Error.duplicate_idempotency_key ])
  pure (existing o)
after_create user_id key (err e) = fail e

abbrev pub new_order : ℕ → PlaceOrderInput → Float → Float → NewOrder
new_order user_id input price qty = record {
  user_id = user_id;
  asset_id = input.asset_id;
  side = input.side;
  price = format price;
  quantity = format qty;
  status = OrderStatus.pending;
  idempotency_key = input.idempotency_key;
}

unfoldable pub place_new : ℕ → PlaceOrderInput → M Placement
unfolding after_create
place_new user_id input = do
  price ← or_fail (parse_positive_amount input.price) Error.invalid_price
  qty ← or_fail (parse_positive_amount input.quantity) Error.invalid_quantity
  a ← get_asset input.asset_id
  fail_if (not (is_active a.status)) Error.order_asset_not_active
  check_funds user_id input price qty input.side
  r ← attempt (run_tx (create (new_order user_id input price qty)))
  after_create user_id input.idempotency_key r

unfoldable pub place_unless : ℕ → PlaceOrderInput → Option Order → M Placement
unfolding place_new
place_unless user_id input (some o) = pure (existing o)
place_unless user_id input none = place_new user_id input

-- PlaceOrder, but for the offer to the queue (`offer`) and the event.
unfoldable pub place_order : ℕ → PlaceOrderInput → M Placement
unfolding place_unless
place_order user_id input = do
  found ← find_existing user_id input.idempotency_key
  place_unless user_id input found

-- The send on the queue's channel, which does not wait: a full queue drops the order.
unfoldable pub offer : ℕ → List Order → Order → List Order
offer capacity queue o = if ltb (length queue) capacity then queue ++ o ∷ [] else queue

abbrev pub with_status : OrderStatus → Order → Order
with_status status o = record o { status = status }

unfoldable pub cancel_tx : ℕ → ℕ → M Order
cancel_tx user_id order_id = do
  o ← get_by_id_for_update order_id
  fail_if (not (o.user_id == user_id)) Error.order_not_owned
  fail_if (not (is_open o.status)) Error.order_not_cancellable
  update_status order_id OrderStatus.cancelled
  pure (with_status OrderStatus.cancelled o)

unfoldable pub cancel_order : ℕ → ℕ → M Order
unfolding cancel_tx
cancel_order user_id order_id = run_tx (cancel_tx user_id order_id)

unfoldable pub get_order : ℕ → ℕ → M Order
get_order user_id order_id = do
  o ← get_by_id order_id
  fail_if (not (o.user_id == user_id)) Error.order_not_owned
  pure o

pub record OrderPage : Type 0 where
  pub orders : List Order
  pub total : ℕ
  pub page : ℕ
  pub page_size : ℕ
  pub total_pages : ℕ

-- The page and its size after the defaults. (A negative number is treated as 0 is.)
abbrev pub page_of : ℕ → ℕ
page_of page = if ltb page 1 then 1 else page

abbrev pub page_size_of : ℕ → ℕ
page_size_of n = if ltb n 1 || ltb 100 n then 20 else n

abbrev pub pages_of : ℕ → ℕ → ℕ
pages_of total size = let n = (total + size - 1) / size in if n == 0 then 1 else n

unfoldable pub list_orders : ℕ → ℕ → ℕ → M OrderPage
list_orders user_id page page_size = do
  let size = page_size_of page_size
  orders ← list_by_user user_id size ((page_of page - 1) * size)
  total ← count_by_user user_id
  pure (record {
    orders = orders;
    total = total;
    page = page_of page;
    page_size = size;
    total_pages = pages_of total size;
  })
