-- ===== src/Matching/Executor/Steps.antt =====
-- What the parts of a trade have done when they succeed.
use multi_trade_platform.Base.{ℕ, ◌+◌, ◌-◌, ◌*◌, ◌^◌, ◌≤◌, ◌<◌, ◌≡◌, arith, some, ok, find_row}
use multi_trade_platform.Decimal.BigFloat.{add}
use multi_trade_platform.Decimal.Exact.{format-of_column}
use multi_trade_platform.Decimal.Amount.{product, format-product, add-product, sub-product}
use multi_trade_platform.Store.{
  World, Order, OrderStatus, Wallet, WalletTransaction, TxType, Description, buy, sell,
  numeric_limit,
}
use multi_trade_platform.Store.Laws.{>>-step, fail_if-ok}
use multi_trade_platform.Order.Repository.{has_id, add_fill}
use multi_trade_platform.Order.Repository.Effects.{update_fill-ok}
use multi_trade_platform.Wallet.Repository.{of_user}
use multi_trade_platform.Wallet.Repository.Effects.{
  get_by_user_id_for_update-step, update_balance-ok_column, insert_transaction-ok_column, Records,
}
use multi_trade_platform.Wallet.Laws.{moved}
use multi_trade_platform.Matching.Matcher.{engine_precision, must_parse_big, new_status}
use multi_trade_platform.Matching.Executor.{fill_order, debit_buyer, credit_seller}

-- The status that the engine computes for an order after a fill of q units.
abbrev pub status_after : Order → ℕ → OrderStatus
status_after o q =
    new_status (add engine_precision (must_parse_big o.filled_quantity) (must_parse_big q))
      (must_parse_big o.quantity)

pub fill_order-ok :
    (o : Order) (q : ℕ) (w : World) (a : Unit {0}) (w' : World)
    → q < numeric_limit
    → find_row (has_id o.id) w.db.orders ≡ some o
    → fill_order o (must_parse_big q) w ≡ (ok a, w')
    → (o.filled_quantity + q ≤ o.quantity)
      × (w'.db ≡ record w.db { orders = add_fill o.id q (status_after o q) w.db.orders })
unfolding fill_order
fill_order-ok o q w a w' h found e =
    update_fill-ok o.id q _ _ o w a w' (format-of_column engine_precision q (omega arith)) found e

-- A cost of c units, as the product of a quantity and a price.
module _ (q p c : ℕ) (exact : q * p ≡ c * 10 ^ 8) (c_fits : c < numeric_limit) where
  pub debit_buyer-ok :
      (o : Order) (x : Wallet) (w : World) (a : Unit {0}) (w' : World)
      → x.balance < numeric_limit
      → find_row (of_user o.user_id) w.db.wallets ≡ some x
      → debit_buyer o (product engine_precision q p) w ≡ (ok a, w')
      → (t : WalletTransaction) × (c ≤ x.balance)
        × Records x.id c TxType.withdrawal (Description.trade_fill buy o.id) t
        × (w'.db ≡ moved w.db x (x.balance - c) t)
  unfolding debit_buyer
  debit_buyer-ok o x w a w' h found e =
      get_by_user_id_for_update-step w o.user_id x _ found e λ w₁ same k₁.
        >>-step _ _ k₁ λ unit w₂ e₂ k₂.
          let (test, same₂) = fail_if-ok _ _ w₁ unit w₂ e₂ in
          let (enough, balance) =
            sub-product engine_precision x.balance q p c exact (omega arith) (ground arith) in
          let amount = format-product engine_precision x.balance q p c exact (omega arith) in
          >>-step _ _ k₂ λ _ w₃ e₃ k₃.
            let db₃ =
              update_balance-ok_column x.id x.version (x.balance - c) _ w₂ _ w₃ balance e₃ in
            >>-step _ _ k₃ λ t w₄ e₄ k₄.
              let (recorded, db₄) =
                insert_transaction-ok_column x.id c _ TxType.withdrawal _ w₃ t w₄ amount e₄ in
              (t, enough, recorded, ground arith)

  pub credit_seller-ok :
      (o : Order) (x : Wallet) (w : World) (a : Unit {0}) (w' : World)
      → x.balance < numeric_limit
      → find_row (of_user o.user_id) w.db.wallets ≡ some x
      → credit_seller o (product engine_precision q p) w ≡ (ok a, w')
      → (t : WalletTransaction) × Records x.id c TxType.deposit (Description.trade_fill sell o.id) t
        × (w'.db ≡ moved w.db x (x.balance + c) t)
  unfolding credit_seller
  credit_seller-ok o x w a w' h found e =
      get_by_user_id_for_update-step w o.user_id x _ found e λ w₁ same k₁.
        let balance = add-product engine_precision x.balance q p c exact (omega arith) in
        let amount = format-product engine_precision x.balance q p c exact (omega arith) in
        >>-step _ _ k₁ λ _ w₂ e₂ k₂.
          let db₂ = update_balance-ok_column x.id x.version (x.balance + c) _ w₁ _ w₂ balance e₂ in
          >>-step _ _ k₂ λ t w₃ e₃ k₃.
            let (recorded, db₃) =
              insert_transaction-ok_column x.id c _ TxType.deposit _ w₂ t w₃ amount e₃ in
            (t, recorded, ground arith)
