-- ===== src/Matching/Executor/Keeping.antt =====
-- The steps of a trade that do not write the orders.
use multi_trade_platform.Base.{ℕ, refl, Option, none, some}
use multi_trade_platform.Decimal.BigFloat.{NumText, Float}
use multi_trade_platform.Store.{Order, Wallet, Holding, TxType, Description}
use multi_trade_platform.Store.Keeping.{
  KeepsOrders, pure-KeepsOrders, fail-KeepsOrders, or_fail-KeepsOrders, statement-KeepsOrders,
  fail_if-KeepsOrders, read_db-KeepsOrders, next_serial-KeepsOrders, modify-KeepsOrders,
  >>=-KeepsOrders, >>-KeepsOrders,
}
use multi_trade_platform.Wallet.Repository.{
  get_by_user_id_for_update, update_balance, store_balance, insert_transaction,
}
use multi_trade_platform.Portfolio.{
  upsert_buyer_holding, store_bought, reduce_seller_holding, store_sold,
}
use multi_trade_platform.Trade.{insert}
use multi_trade_platform.Matching.Executor.{debit_buyer, credit_seller}

pub insert-KeepsOrders :
    (b s : Order) (price quantity : NumText) → KeepsOrders (insert b s price quantity)
unfolding insert
insert-KeepsOrders b s price quantity = statement-KeepsOrders _ (
    >>=-KeepsOrders _ _ (or_fail-KeepsOrders _ _) λ p.
      >>=-KeepsOrders _ _ (or_fail-KeepsOrders _ _) λ q.
        >>-KeepsOrders _ _ (fail_if-KeepsOrders _ _) (
          >>=-KeepsOrders _ _ next_serial-KeepsOrders
            λ id. >>-KeepsOrders _ _ (modify-KeepsOrders _ (λ d. refl)) (pure-KeepsOrders _)))

wallet-KeepsOrders : (user_id : ℕ) → KeepsOrders (get_by_user_id_for_update user_id)
unfolding get_by_user_id_for_update
wallet-KeepsOrders user_id =
    statement-KeepsOrders _ (>>=-KeepsOrders _ _ read_db-KeepsOrders λ d. or_fail-KeepsOrders _ _)

store_balance-KeepsOrders :
    (id version : ℕ) (balance : NumText) (o : Option Wallet)
    → KeepsOrders (store_balance id version balance o)
unfolding store_balance
store_balance-KeepsOrders id version balance none = fail-KeepsOrders _ _
store_balance-KeepsOrders id version balance (some w) =
    >>=-KeepsOrders _ _ (or_fail-KeepsOrders _ _) λ n. modify-KeepsOrders _ (λ d. refl)

update_balance-KeepsOrders :
    (id : ℕ) (balance : NumText) (version : ℕ) → KeepsOrders (update_balance id balance version)
unfolding update_balance
update_balance-KeepsOrders id balance version =
    statement-KeepsOrders _
      (>>=-KeepsOrders _ _ read_db-KeepsOrders λ d. store_balance-KeepsOrders id version balance _)

insert_transaction-KeepsOrders :
    (id : ℕ) (amount : NumText) (kind : TxType) (d : Description)
    → KeepsOrders (insert_transaction id amount kind d)
unfolding insert_transaction
insert_transaction-KeepsOrders id amount kind d = statement-KeepsOrders _ (
    >>=-KeepsOrders _ _ (or_fail-KeepsOrders _ _) λ n.
      >>=-KeepsOrders _ _ next_serial-KeepsOrders
        λ serial. >>-KeepsOrders _ _ (modify-KeepsOrders _ (λ d. refl)) (pure-KeepsOrders _))

pub debit_buyer-KeepsOrders : (o : Order) (cost : Float) → KeepsOrders (debit_buyer o cost)
unfolding debit_buyer
debit_buyer-KeepsOrders o cost = >>=-KeepsOrders _ _ (wallet-KeepsOrders _) λ w.
    >>-KeepsOrders _ _ (fail_if-KeepsOrders _ _) (
      >>-KeepsOrders _ _ (update_balance-KeepsOrders _ _ _)
        (>>-KeepsOrders _ _ (insert_transaction-KeepsOrders _ _ _ _) (pure-KeepsOrders _)))

pub credit_seller-KeepsOrders : (o : Order) (cost : Float) → KeepsOrders (credit_seller o cost)
unfolding credit_seller
credit_seller-KeepsOrders o cost = >>=-KeepsOrders _ _ (wallet-KeepsOrders _) λ w.
    >>-KeepsOrders _ _ (update_balance-KeepsOrders _ _ _)
      (>>-KeepsOrders _ _ (insert_transaction-KeepsOrders _ _ _ _) (pure-KeepsOrders _))

store_bought-KeepsOrders :
    (user_id asset_id qty price : ℕ) (h : Option Holding)
    → KeepsOrders (store_bought user_id asset_id qty price h)
unfolding store_bought
store_bought-KeepsOrders user_id asset_id qty price none = modify-KeepsOrders _ (λ d. refl)
store_bought-KeepsOrders user_id asset_id qty price (some h) =
    >>-KeepsOrders _ _ (fail_if-KeepsOrders _ _) (modify-KeepsOrders _ (λ d. refl))

pub upsert_buyer_holding-KeepsOrders :
    (user_id asset_id : ℕ) (qty price : NumText)
    → KeepsOrders (upsert_buyer_holding user_id asset_id qty price)
unfolding upsert_buyer_holding
upsert_buyer_holding-KeepsOrders user_id asset_id qty price = statement-KeepsOrders _ (
    >>=-KeepsOrders _ _ (or_fail-KeepsOrders _ _) λ q.
      >>=-KeepsOrders _ _ (or_fail-KeepsOrders _ _) λ p.
        >>=-KeepsOrders _ _ read_db-KeepsOrders
          λ d. store_bought-KeepsOrders user_id asset_id q p _)

store_sold-KeepsOrders :
    (user_id asset_id qty : ℕ) (h : Option Holding)
    → KeepsOrders (store_sold user_id asset_id qty h)
unfolding store_sold
store_sold-KeepsOrders user_id asset_id qty none = pure-KeepsOrders _
store_sold-KeepsOrders user_id asset_id qty (some h) =
    >>-KeepsOrders _ _ (fail_if-KeepsOrders _ _) (modify-KeepsOrders _ (λ d. refl))

pub reduce_seller_holding-KeepsOrders :
    (user_id asset_id : ℕ) (qty : NumText)
    → KeepsOrders (reduce_seller_holding user_id asset_id qty)
unfolding reduce_seller_holding
reduce_seller_holding-KeepsOrders user_id asset_id qty = statement-KeepsOrders _ (
    >>=-KeepsOrders _ _ (or_fail-KeepsOrders _ _)
      λ q. >>=-KeepsOrders _ _ read_db-KeepsOrders λ d. store_sold-KeepsOrders user_id asset_id q _)
