-- ===== src/Matching/Executor.antt =====
-- executor.go: one trade between two orders, in one transaction.
pub mod Steps
pub mod Settlement
pub mod Keeping
pub mod Branches
pub mod Rollback
use multi_trade_platform.Base.{
  ℕ, ◌+◌, Bool, true, false, not, ◌&&◌, ◌||◌, Option, none, some, Result, ok, err, ltb, ◌==◌,
  if◌then◌else◌,
}
use multi_trade_platform.Decimal.BigFloat.{
  NumText, Float, cmp, less, equal, greater, add, sub, mul, format,
}
use multi_trade_platform.Decimal.Sign.{zero_float}
use multi_trade_platform.Store.{
  M, World, Db, pure, fail_if, statement, rollback, commit, ◌>>=◌, ◌>>◌, Error, Order, Side, buy,
  sell, OrderStatus, Wallet, Trade, TxType, Description,
}
use multi_trade_platform.Order.Repository.{
  get_by_id_for_update, update_fill, is_open, remaining_quantity,
}
use multi_trade_platform.Wallet.Repository.{
  get_by_user_id_for_update, update_balance, insert_transaction,
}
use multi_trade_platform.Portfolio.{upsert_buyer_holding, reduce_seller_holding}
use multi_trade_platform.Trade.{insert}
use multi_trade_platform.Matching.Matcher.{
  engine_precision, must_parse_big, le_float, new_status, min_big,
}

-- Both orders are locked, the one with the smaller id first, and handed back as buy and sell order.
unfoldable pub lock_orders : ℕ → ℕ → M (Order × Order)
lock_orders buy_id sell_id = do
  first ← get_by_id_for_update (if ltb sell_id buy_id then sell_id else buy_id)
  second ← get_by_id_for_update (if ltb sell_id buy_id then buy_id else sell_id)
  pure (if first.id == buy_id then (first, second) else (second, first))

abbrev pub is_positive : Float → Bool
is_positive f = not (le_float f zero_float)

-- The quantity of the trade, or none where the transaction is rolled back: an order is no longer
-- open, the prices do not cross, or nothing is left to fill.
unfoldable pub fill_quantity : Order → Order → Option Float
fill_quantity buy_order sell_order =
    let qty =
      min_big (must_parse_big (remaining_quantity buy_order))
        (must_parse_big (remaining_quantity sell_order)) in
    if not (is_open buy_order.status) || not (is_open sell_order.status)
    then none
    else if not (le_float (must_parse_big sell_order.price) (must_parse_big buy_order.price))
    then none
    else if is_positive qty
    then some qty
    else none

-- The order is filled by the quantity, and gets its new status.
unfoldable pub fill_order : Order → Float → M (Unit {0})
fill_order o qty =
    let done = add engine_precision (must_parse_big o.filled_quantity) qty in
    update_fill o.id (format qty) (new_status done (must_parse_big o.quantity))

unfoldable pub debit_buyer : Order → Float → M (Unit {0})
debit_buyer o cost = do
  w ← get_by_user_id_for_update o.user_id
  let balance = sub engine_precision (must_parse_big w.balance) cost
  fail_if (elim (cmp balance zero_float) [ less ↦ true | _ ↦ false ]) Error.buyer_cannot_pay
  update_balance w.id (format balance) w.version
  insert_transaction w.id (format cost) TxType.withdrawal (Description.trade_fill buy o.id)
  pure tt

unfoldable pub credit_seller : Order → Float → M (Unit {0})
credit_seller o cost = do
  w ← get_by_user_id_for_update o.user_id
  let balance = add engine_precision (must_parse_big w.balance) cost
  update_balance w.id (format balance) w.version
  insert_transaction w.id (format cost) TxType.deposit (Description.trade_fill sell o.id)
  pure tt

-- What the transaction does once the quantity is known: the trade, the two orders, the two wallets
-- and the two holdings.
unfoldable pub settle : Order → Order → Float → Float → M Trade
unfolding fill_order debit_buyer credit_seller
settle buy_order sell_order price qty = do
  let cost = mul engine_precision qty price
  t ← insert buy_order sell_order (format price) (format qty)
  fill_order buy_order qty
  fill_order sell_order qty
  debit_buyer buy_order cost
  credit_seller sell_order cost
  upsert_buyer_holding buy_order.user_id buy_order.asset_id (format qty) (format price)
  reduce_seller_holding sell_order.user_id sell_order.asset_id (format qty)
  pure t

unfoldable pub settle_if : Order → Order → Float → Option Float → M (Option Trade)
unfolding settle
settle_if buy_order sell_order price none = pure none
settle_if buy_order sell_order price (some qty) = do
  t ← settle buy_order sell_order price qty
  pure (some t)

-- The statements between BEGIN and COMMIT; none stands for a rollback without an error.
unfoldable pub trade_tx : ℕ → ℕ → Float → M (Option Trade)
unfolding lock_orders settle_if
trade_tx buy_id sell_id price = do
  (buy_order, sell_order) ← lock_orders buy_id sell_id
  settle_if buy_order sell_order price (fill_quantity buy_order sell_order)

unfoldable pub finish : Db → Result Error (Option Trade) → M (Option Trade)
finish before (err e) w = rollback before e w
finish before (ok none) w = (ok none, record w { db = before })
finish before (ok (some t)) w = commit before (some t) w

abbrev is_buy : Side → Bool
is_buy buy = true
is_buy sell = false

-- The orders of a trade, by the incoming order's side.
abbrev pub buy_order_id : Order → Order → ℕ
buy_order_id incoming candidate = if is_buy incoming.side then incoming.id else candidate.id

abbrev pub sell_order_id : Order → Order → ℕ
sell_order_id incoming candidate = if is_buy incoming.side then candidate.id else incoming.id

-- executeTrade until its commit, with the rollbacks of its early returns gathered in `finish`; Branches has
-- each of them in its place, and what is written to the cache afterwards is in Matching/Prices. The trade's
-- price is the candidate's, which rests in the book.
unfoldable pub execute_trade : Order → Order → M (Option Trade)
unfolding trade_tx finish
execute_trade incoming candidate w =
    let buy_id = buy_order_id incoming candidate in
    let sell_id = sell_order_id incoming candidate in
    let (began, w₁) = statement (pure tt) w in
    elim began [
      | err e ↦ (err e, w₁)
      | ok _ ↦
          let (r, w₂) = trade_tx buy_id sell_id (must_parse_big candidate.price) w₁ in
          finish w₁.db r w₂
    ]
