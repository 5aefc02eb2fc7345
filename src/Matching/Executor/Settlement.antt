-- ===== src/Matching/Executor/Settlement.antt =====
-- What a settlement has done when it succeeds: the statements of `settle`, in order.
use multi_trade_platform.Base.{
  ℕ, ◌+◌, ◌-◌, ◌*◌, ◌^◌, ◌≤◌, ◌<◌, ◌≡◌, ◌≢◌, refl, ◌∙◌, arith, [], ◌∷◌, ◌++◌, some, ok, find_row,
  find_row-update_rows,
}
use multi_trade_platform.Decimal.Exact.{format-of_column}
use multi_trade_platform.Decimal.Amount.{mul_product}
use multi_trade_platform.Store.{
  World, Db, Order, Wallet, WalletTransaction, TxType, Description, buy, sell, Trade, Holding,
  numeric_limit,
}
use multi_trade_platform.Store.Laws.{>>=-step, >>-step}
use multi_trade_platform.Order.Repository.{has_id, add_fill}
use multi_trade_platform.Wallet.Repository.{of_user, at_version, set_balance}
use multi_trade_platform.Wallet.Repository.Effects.{Records}
use multi_trade_platform.Wallet.Laws.{moved}
use multi_trade_platform.Portfolio.{is_holding}
use multi_trade_platform.Portfolio.Effects.{
  after_purchase, after_purchase-other, after_sale, upsert_buyer_holding-ok,
  reduce_seller_holding-ok,
}
use multi_trade_platform.Trade.Effects.{Joins, insert-ok}
use multi_trade_platform.Matching.Matcher.{engine_precision, must_parse_big}
use multi_trade_platform.Matching.Executor.{settle}
use multi_trade_platform.Matching.Executor.Steps.{
  status_after, fill_order-ok, debit_buyer-ok, credit_seller-ok,
}

-- The two parties of a trade as the tables show them: orders, wallets and the seller's holding.
pub record Parties (db : Db) (b s : Order) (x y : Wallet) (h : Holding) : Type 0 where
  pub buy_order : find_row (has_id b.id) db.orders ≡ some b
  pub sell_order : find_row (has_id s.id) db.orders ≡ some s
  pub orders_differ : b.id ≢ s.id
  pub buyer_wallet : find_row (of_user b.user_id) db.wallets ≡ some x
  pub seller_wallet : find_row (of_user s.user_id) db.wallets ≡ some y
  pub wallets_differ : x.id ≢ y.id
  pub users_differ : b.user_id ≢ s.user_id
  pub seller_holding : find_row (is_holding s.user_id s.asset_id) db.holdings ≡ some h
  pub buyer_balance : x.balance < numeric_limit
  pub seller_balance : y.balance < numeric_limit

-- The tables after q units have been traded at price p for a cost of c.
abbrev pub settled :
    Db
    → Order
    → Order
    → Wallet
    → Wallet
    → ℕ
    → ℕ
    → ℕ
    → Trade
    → WalletTransaction
    → WalletTransaction
    → Db
settled db b s x y q p c t paid earned = record db {
  trades = db.trades ++ t ∷ [];
  orders = add_fill s.id q (status_after s q) (add_fill b.id q (status_after b q) db.orders);
  wallets =
      set_balance y.id y.version (y.balance + c)
        (set_balance x.id x.version (x.balance - c) db.wallets);
  wallet_transactions = (db.wallet_transactions ++ paid ∷ []) ++ earned ∷ [];
  holdings =
      after_sale s.user_id s.asset_id q (after_purchase b.user_id b.asset_id q p db.holdings);
}

-- What a settlement promises: everything moves by the same quantity and cost, within what is there.
pub record Settles (db : Db) (b s : Order) (x y : Wallet) (h : Holding) (q p c : ℕ) (t : Trade)
    (db' : Db) : Type 0 where
  pub joins : Joins b s p q t
  pub buy_within : b.filled_quantity + q ≤ b.quantity
  pub sell_within : s.filled_quantity + q ≤ s.quantity
  pub paid_for : c ≤ x.balance
  pub held : q ≤ h.quantity
  pub paid : WalletTransaction
  pub paid_recorded : Records x.id c TxType.withdrawal (Description.trade_fill buy b.id) paid
  pub earned : WalletTransaction
  pub earned_recorded : Records y.id c TxType.deposit (Description.trade_fill sell s.id) earned
  pub tables : db' ≡ settled db b s x y q p c t paid earned

settled_lem :
    (db db₁ db₂ db₃ db₄ db₅ db₆ db₇ : Db) (b s : Order) (x y : Wallet) (q p c : ℕ) (t : Trade)
    (paid earned : WalletTransaction)
    → db₁ ≡ record db { trades = db.trades ++ t ∷ [] }
    → db₂ ≡ record db₁ { orders = add_fill b.id q (status_after b q) db₁.orders }
    → db₃ ≡ record db₂ { orders = add_fill s.id q (status_after s q) db₂.orders }
    → db₄ ≡ moved db₃ x (x.balance - c) paid
    → db₅ ≡ moved db₄ y (y.balance + c) earned
    → db₆ ≡ record db₅ { holdings = after_purchase b.user_id b.asset_id q p db₅.holdings }
    → db₇ ≡ record db₆ { holdings = after_sale s.user_id s.asset_id q db₆.holdings }
    → db₇ ≡ settled db b s x y q p c t paid earned
settled_lem db db₁ db₂ db₃ db₄ db₅ db₆ db₇ b s x y q p c t paid earned e₁ e₂ e₃ e₄ e₅ e₆ e₇ =
    rw (e₇, e₆, e₅, e₄, e₃, e₂, e₁) refl

-- A settlement of an exact cost that succeeds.
pub settle-ok :
    (b s : Order) (x y : Wallet) (h : Holding) (q p c : ℕ) (w : World) (t : Trade) (w' : World)
    → q * p ≡ c * 10 ^ 8
    → q < numeric_limit
    → p < numeric_limit
    → c < numeric_limit
    → Parties w.db b s x y h
    → settle b s (must_parse_big p) (must_parse_big q) w ≡ (ok t, w')
    → Settles w.db b s x y h q p c t w'.db
unfolding settle
settle-ok b s x y h q p c w t w' exact q_fits p_fits c_fits parties e =
    let qty = format-of_column engine_precision q (omega arith) in
    let price = format-of_column engine_precision p (omega arith) in
    >>=-step _ _ e λ t' w₁ e₁ k₁.
      let (joins, db₁) = insert-ok b s p q _ _ w t' w₁ price qty e₁ in
      >>-step _ _ k₁ λ u₂ w₂ e₂ k₂.
        let (buy_within, db₂) = fill_order-ok b q w₁ u₂ w₂ q_fits (rw db₁ parties.buy_order) e₂ in
        >>-step _ _ k₂ λ u₃ w₃ e₃ k₃.
          let s_found =
            find_row-update_rows (has_id s.id) (has_id b.id) _ w.db.orders s (λ o. refl)
              (let ne = parties.orders_differ in ground arith) parties.sell_order in
          let (sell_within, db₃) = fill_order-ok s q w₂ u₃ w₃ q_fits (rw (db₂, db₁) s_found) e₃ in
          >>-step _ _ k₃ λ u₄ w₄ e₄ k₄.
            let (paid, paid_for, paid_recorded, db₄) =
              debit_buyer-ok q p c exact c_fits b x w₃ u₄ w₄ parties.buyer_balance
                (rw (db₃, db₂, db₁) parties.buyer_wallet)
                (rw (← mul_product engine_precision q p) e₄) in
            >>-step _ _ k₄ λ u₅ w₅ e₅ k₅.
              let y_found =
                find_row-update_rows (of_user s.user_id) (at_version x.id x.version) _ w.db.wallets
                  y (λ r. refl) (let ne = parties.wallets_differ in ground arith)
                  parties.seller_wallet in
              let (earned, earned_recorded, db₅) =
                credit_seller-ok q p c exact c_fits s y w₄ u₅ w₅ parties.seller_balance
                  (rw (db₄, db₃, db₂, db₁) y_found) (rw (← mul_product engine_precision q p) e₅) in
              >>-step _ _ k₅ λ u₆ w₆ e₆ k₆.
                let db₆ =
                  upsert_buyer_holding-ok b.user_id b.asset_id q p _ _ w₅ u₆ w₆ qty price e₆ in
                let h_found =
                  after_purchase-other b.user_id s.user_id b.asset_id s.asset_id q p w.db.holdings h
                    parties.users_differ parties.seller_holding in
                >>-step _ _ k₆ λ u₇ w₇ e₇ k₇.
                  let (held, db₇) =
                    reduce_seller_holding-ok s.user_id s.asset_id q _ h w₆ u₇ w₇ qty
                      (rw (db₆, db₅, db₄, db₃, db₂, db₁) h_found) e₇ in
                  let same_t : t' ≡ t = ground arith in
                  let last : w'.db ≡ w₇.db = ground arith in
                  record {
                    joins = rw (← same_t) joins;
                    buy_within = buy_within;
                    sell_within = sell_within;
                    paid_for = paid_for;
                    held = held;
                    paid = paid;
                    paid_recorded = paid_recorded;
                    earned = earned;
                    earned_recorded = earned_recorded;
                    tables =
                        settled_lem w.db w₁.db w₂.db w₃.db w₄.db w₅.db w₆.db w'.db b s x y q p c t
                          paid earned (rw (← same_t) db₁) db₂ db₃ db₄ db₅ db₆ (last ∙ db₇);
                  }
