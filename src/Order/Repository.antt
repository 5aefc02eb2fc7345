-- ===== src/Order/Repository.antt =====
-- internal/order/repository: one statement each.
pub mod Effects
use Prim.Native.String.{String}
use text.Mathlib.Text.{◌==◌ as str_eq}
use multi_trade_platform.Base.{
  ℕ, suc, ◌+◌, ◌-◌, Bool, true, false, ◌&&◌, ◌||◌, List, [], ◌∷◌, ◌++◌, Option, none, some, ltb,
  leb, ◌==◌, if◌then◌else◌, find_row, update_rows, select, length, take, drop,
}
use multi_trade_platform.Base.Newest.{newest_first}
use multi_trade_platform.Decimal.BigFloat.{NumText}
use multi_trade_platform.Store.{
  M, pure, fail, or_fail, fail_if, modify, read_db, next_serial, statement, ◌>>=◌, ◌>>◌, Error, Db,
  Order, Side, buy, sell, OrderStatus, pending, partially_filled, filled, cancelled, numeric,
  non_negative,
}

-- remaining_quantity is a generated column: quantity - filled_quantity.
abbrev pub remaining_quantity : Order → ℕ
remaining_quantity o = o.quantity - o.filled_quantity

abbrev pub has_id : ℕ → Order → Bool
has_id id o = o.id == id

-- What the caller of Create passes.
pub record NewOrder : Type 0 where
  pub user_id : ℕ
  pub asset_id : ℕ
  pub side : Side
  pub price : NumText
  pub quantity : NumText
  pub status : OrderStatus
  pub idempotency_key : Option String

abbrev same_key : Option String → Option String → Bool
same_key (some a) (some b) = str_eq a b
same_key _ _ = false

-- The unique index on (user_id, idempotency_key) where the key is not null.
abbrev pub has_key : ℕ → Option String → Order → Bool
has_key user_id key o = o.user_id == user_id && same_key o.idempotency_key key

insert_order : NewOrder → ℕ → ℕ → Option Order → M Order
insert_order n price quantity (some o) = fail Error.duplicate_idempotency_key
insert_order n price quantity none = do
  id ← next_serial
  let o : Order = record {
    id = id;
    user_id = n.user_id;
    asset_id = n.asset_id;
    side = n.side;
    price = price;
    quantity = quantity;
    filled_quantity = 0;
    status = n.status;
    idempotency_key = n.idempotency_key;
    created_at = id;
  }
  modify (λ db. record db { orders = db.orders ++ o ∷ [] })
  pure o

-- Create. CHECK (price > 0), CHECK (quantity > 0), and the unique index, which
-- isDuplicateKeyErr recognises.
unfoldable pub create : NewOrder → M Order
unfolding insert_order
create n = statement (do
  price ← or_fail (non_negative (numeric n.price)) Error.refused
  quantity ← or_fail (non_negative (numeric n.quantity)) Error.refused
  fail_if (price == 0 || quantity == 0) Error.refused
  db ← read_db
  insert_order n price quantity (find_row (has_key n.user_id n.idempotency_key) db.orders))

unfoldable pub get_by_id : ℕ → M Order
get_by_id id =
    statement (do db ← read_db; or_fail (find_row (has_id id) db.orders) Error.order_not_found)

-- The row stays locked until the transaction ends.
unfoldable pub get_by_id_for_update : ℕ → M Order
get_by_id_for_update id =
    statement (do db ← read_db; or_fail (find_row (has_id id) db.orders) Error.order_not_found)

abbrev pub set_status : ℕ → OrderStatus → List Order → List Order
set_status id status = update_rows (has_id id) (λ o. record o { status = status })

unfoldable pub update_status : ℕ → OrderStatus → M (Unit {0})
update_status id status =
    statement (modify (λ db. record db { orders = set_status id status db.orders }))

abbrev pub add_fill : ℕ → ℕ → OrderStatus → List Order → List Order
add_fill id n status =
    update_rows (has_id id)
      (λ o. record o { filled_quantity = o.filled_quantity + n; status = status })

-- CHECK (filled_quantity <= quantity).
store_fill : ℕ → ℕ → OrderStatus → Option Order → M (Unit {0})
store_fill id n status none = pure tt
store_fill id n status (some o) = do
  fail_if (ltb o.quantity (o.filled_quantity + n)) Error.refused
  modify (λ db. record db { orders = add_fill id n status db.orders })

-- UpdateFill. The quantities that the engine adds have no sign.
unfoldable pub update_fill : ℕ → NumText → OrderStatus → M (Unit {0})
unfolding store_fill
update_fill id added status = statement (do
  n ← or_fail (non_negative (numeric added)) Error.refused
  db ← read_db
  store_fill id n status (find_row (has_id id) db.orders))

abbrev pub is_open : OrderStatus → Bool
is_open pending = true
is_open partially_filled = true
is_open filled = false
is_open cancelled = false

abbrev pub same_side : Side → Side → Bool
same_side buy buy = true
same_side sell sell = true
same_side buy sell = false
same_side sell buy = false

-- The rows that the matching query selects.
abbrev pub is_candidate : ℕ → Side → Order → Bool
is_candidate asset_id side o = o.asset_id == asset_id && same_side o.side side && is_open o.status

-- ORDER BY price DESC for buy orders and ASC for sell orders, then created_at ASC.
abbrev pub precedes : Side → Order → Order → Bool
precedes buy a b = ltb b.price a.price || (a.price == b.price && leb a.created_at b.created_at)
precedes sell a b = ltb a.price b.price || (a.price == b.price && leb a.created_at b.created_at)

unfoldable pub insert_row : Side → Order → List Order → List Order
insert_row side o [] = o ∷ []
insert_row side o (x ∷ xs) = if precedes side o x then o ∷ x ∷ xs else x ∷ insert_row side o xs

unfoldable pub sort_rows : Side → List Order → List Order
unfolding insert_row
sort_rows side [] = []
sort_rows side (x ∷ xs) = insert_row side x (sort_rows side xs)

unfoldable pub get_open_orders_for_matching : ℕ → Side → M (List Order)
get_open_orders_for_matching asset_id side =
    statement
      (do db ← read_db; pure (sort_rows side (select (is_candidate asset_id side) db.orders)))

unfoldable pub get_by_idempotency_key : ℕ → String → M Order
get_by_idempotency_key user_id key = statement (do
  db ← read_db
  or_fail (find_row (has_key user_id (some key)) db.orders) Error.order_not_found)

abbrev placed_by : ℕ → Order → Bool
placed_by user_id o = o.user_id == user_id

-- ListByUser: ORDER BY created_at DESC.
unfoldable pub list_by_user : ℕ → ℕ → ℕ → M (List Order)
list_by_user user_id limit offset = statement (do
  db ← read_db
  pure (
      take limit
        (drop offset (newest_first Order.created_at (select (placed_by user_id) db.orders)))))

unfoldable pub count_by_user : ℕ → M ℕ
count_by_user user_id =
    statement (do db ← read_db; pure (length (select (placed_by user_id) db.orders)))
