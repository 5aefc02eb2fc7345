-- ===== src/Matching/Executor/Branches.antt =====
-- executor.go: executeTrade with the tx.Rollback() of each early return where the code has it.
use multi_trade_platform.Base.{
  ℕ, true, false, Option, none, some, ok, err, ltb, ◌==◌, if◌then◌else◌,
}
use multi_trade_platform.Decimal.BigFloat.{Float, cmp, less, add, sub, mul, format}
use multi_trade_platform.Decimal.Sign.{zero_float}
use multi_trade_platform.Store.{
  M, Db, pure, fail_if, statement, rollback, commit, ◌>>=◌, ◌>>◌, Error, Order, buy, sell, Trade,
  TxType, Description,
}
use multi_trade_platform.Order.Repository.{get_by_id_for_update}
use multi_trade_platform.Wallet.Repository.{
  get_by_user_id_for_update, update_balance, insert_transaction,
}
use multi_trade_platform.Portfolio.{upsert_buyer_holding, reduce_seller_holding}
use multi_trade_platform.Trade.{insert}
use multi_trade_platform.Matching.Matcher.{engine_precision, must_parse_big}
use multi_trade_platform.Matching.Executor.{fill_quantity, fill_order, buy_order_id, sell_order_id}

module _ (before : Db) where
  -- if err != nil { tx.Rollback(); return }
  unfoldable pub rolling_back : {A : Type 0} → M A → M A
  rolling_back m w =
      let (r, w') = m w in elim r [ ok a ↦ (ok a, w') | err e ↦ rollback before e w' ]

  unfoldable pub lock_orders_by_branch : ℕ → ℕ → M (Order × Order)
  unfolding rolling_back
  lock_orders_by_branch buy_id sell_id = do
    first ← rolling_back (get_by_id_for_update (if ltb sell_id buy_id then sell_id else buy_id))
    second ← rolling_back (get_by_id_for_update (if ltb sell_id buy_id then buy_id else sell_id))
    pure (if first.id == buy_id then (first, second) else (second, first))

  unfoldable pub debit_buyer_by_branch : Order → Float → M (Unit {0})
  unfolding rolling_back
  debit_buyer_by_branch o cost = do
    w ← rolling_back (get_by_user_id_for_update o.user_id)
    let balance = sub engine_precision (must_parse_big w.balance) cost
    rolling_back
        (fail_if (elim (cmp balance zero_float) [ less ↦ true | _ ↦ false ]) Error.buyer_cannot_pay)
    rolling_back (update_balance w.id (format balance) w.version)
    rolling_back
        (insert_transaction w.id (format cost) TxType.withdrawal (Description.trade_fill buy o.id))
    pure tt

  unfoldable pub credit_seller_by_branch : Order → Float → M (Unit {0})
  unfolding rolling_back
  credit_seller_by_branch o cost = do
    w ← rolling_back (get_by_user_id_for_update o.user_id)
    let balance = add engine_precision (must_parse_big w.balance) cost
    rolling_back (update_balance w.id (format balance) w.version)
    rolling_back
        (insert_transaction w.id (format cost) TxType.deposit (Description.trade_fill sell o.id))
    pure tt

  unfoldable pub settle_by_branch : Order → Order → Float → Float → M Trade
  unfolding rolling_back debit_buyer_by_branch credit_seller_by_branch
  settle_by_branch buy_order sell_order price qty = do
    let cost = mul engine_precision qty price
    t ← rolling_back (insert buy_order sell_order (format price) (format qty))
    rolling_back (fill_order buy_order qty)
    rolling_back (fill_order sell_order qty)
    debit_buyer_by_branch buy_order cost
    credit_seller_by_branch sell_order cost
    rolling_back
        (upsert_buyer_holding buy_order.user_id buy_order.asset_id (format qty) (format price))
    rolling_back (reduce_seller_holding sell_order.user_id sell_order.asset_id (format qty))
    pure t

  -- With no quantity the transaction is rolled back; otherwise it is settled and committed.
  unfoldable pub conclude : Order → Order → Float → Option Float → M (Option Trade)
  unfolding settle_by_branch
  conclude buy_order sell_order price none w = (ok none, record w { db = before })
  conclude buy_order sell_order price (some qty) w =
      (do t ← settle_by_branch buy_order sell_order price qty; commit before (some t)) w

unfoldable pub execute_trade_by_branch : Order → Order → M (Option Trade)
unfolding lock_orders_by_branch conclude
execute_trade_by_branch incoming candidate w =
    let buy_id = buy_order_id incoming candidate in
    let sell_id = sell_order_id incoming candidate in
    let price = must_parse_big candidate.price in
    let (began, w₁) = statement (pure tt) w in
    elim began [
      | err e ↦ (err e, w₁)
      | ok _ ↦
          (do
            (buy_order, sell_order) ← lock_orders_by_branch w₁.db buy_id sell_id
            conclude w₁.db buy_order sell_order price (fill_quantity buy_order sell_order))
            w₁
    ]
