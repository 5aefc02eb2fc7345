-- ===== src/Ledger/Moves.antt =====
-- Deposits, withdrawals and trades keep the ledger.
use multi_trade_platform.Base.{
  ℕ, ◌+◌, ◌-◌, ◌*◌, ◌^◌, ◌≤◌, ◌<◌, ◌≡◌, refl, sym, subst, arith, Bool, false, some, ok, find_row,
  find_row-update_rows,
}
use multi_trade_platform.Base.Int.{pos, ◌+ℤ◌, ◌-ℤ◌}
use multi_trade_platform.Decimal.BigFloat.{number}
use multi_trade_platform.Decimal.Exact.{Fits}
use multi_trade_platform.Store.{
  World, Db, Wallet, WalletTransaction, TxType, Description, Order, Trade, Holding, numeric_limit,
}
use multi_trade_platform.Wallet.{UpdatedWallet, deposit, withdraw, wallet_precision}
use multi_trade_platform.Wallet.Repository.{of_user, at_version}
use multi_trade_platform.Wallet.Repository.Effects.{Records}
use multi_trade_platform.Wallet.Total.{HasKeys, set_balance-HasKeys}
use multi_trade_platform.Wallet.Laws.{moved, amount_of, deposit_effect, withdraw_effect}
use multi_trade_platform.Ledger.{IsBalanced, added, explained-IsBalanced}
use multi_trade_platform.Matching.Executor.{execute_trade, buy_order_id, sell_order_id}
use multi_trade_platform.Matching.Executor.Settlement.{Parties, Settles}
use multi_trade_platform.Matching.Numbers.{IsStored, tradable}
use multi_trade_platform.Matching.Laws.{execute_trade_effect}

credit_added :
    (x : Wallet) (m : ℕ) (d : Description) (t : WalletTransaction)
    → Records x.id m TxType.deposit d t
    → pos x.balance +ℤ added x.id t ≡ pos (x.balance + m)
unfolding ◌+ℤ◌
credit_added x m d t r = ground arith

debit_added :
    (x : Wallet) (m : ℕ) (d : Description) (t : WalletTransaction)
    → m ≤ x.balance
    → Records x.id m TxType.withdrawal d t
    → pos x.balance +ℤ added x.id t ≡ pos (x.balance - m)
unfolding ◌+ℤ◌ ◌-ℤ◌
debit_added x m d t enough r = ground arith

-- The ledger of all wallets.
pub record KeepsLedger (db : Db) : Type 0 where
  pub keys : HasKeys db.wallets
  pub balanced : IsBalanced db.wallet_transactions db.wallets

moved-KeepsLedger :
    (db : Db) (p : Wallet → Bool) (x : Wallet) (n : ℕ) (t : WalletTransaction)
    → t.wallet_id ≡ x.id
    → pos x.balance +ℤ added x.id t ≡ pos n
    → find_row p db.wallets ≡ some x
    → KeepsLedger db
    → KeepsLedger (moved db x n t)
moved-KeepsLedger db p x n t of sum found ledger = record {
  keys = set_balance-HasKeys x.id x.version n db.wallets ledger.keys;
  balanced =
      explained-IsBalanced p n db.wallet_transactions t db.wallets x of sum ledger.keys found
        ledger.balanced;
}

-- A deposit that succeeds keeps the ledger, under the conditions of `deposit_effect`.
pub deposit-KeepsLedger :
    (u c k : ℕ) (d : Description) (w : World) (x : Wallet) (v : UpdatedWallet)
    (t : WalletTransaction) (w' : World)
    → k ≤ 8
    → find_row (of_user u) w.db.wallets ≡ some x
    → Fits wallet_precision (x.balance + amount_of c k + 1)
    → deposit u (record { amount = number false c k; description = d }) w ≡ (ok (v, t), w')
    → KeepsLedger w.db
    → KeepsLedger w'.db
deposit-KeepsLedger u c k d w x v t w' short found fits e ledger =
    let (shown, recorded, tables) = deposit_effect u c k d w x v t w' short found fits e in
    let sum = credit_added x (amount_of c k) d t recorded in
    subst KeepsLedger (sym tables) (
      moved-KeepsLedger w.db (of_user u) x (x.balance + amount_of c k) t recorded.wallet sum found
        ledger)

-- A withdrawal that succeeds keeps the ledger, under the conditions of `withdraw_effect`.
pub withdraw-KeepsLedger :
    (u c k : ℕ) (d : Description) (w : World) (x : Wallet) (v : UpdatedWallet)
    (t : WalletTransaction) (w' : World)
    → k ≤ 8
    → find_row (of_user u) w.db.wallets ≡ some x
    → Fits wallet_precision (x.balance + 1)
    → Fits wallet_precision (amount_of c k)
    → withdraw u (record { amount = number false c k; description = d }) w ≡ (ok (v, t), w')
    → KeepsLedger w.db
    → KeepsLedger w'.db
withdraw-KeepsLedger u c k d w x v t w' short found fits small e ledger =
    let (enough, shown, recorded, tables) =
      withdraw_effect u c k d w x v t w' short found fits small e in
    let sum = debit_added x (amount_of c k) d t enough recorded in
    subst KeepsLedger (sym tables) (
      moved-KeepsLedger w.db (of_user u) x (x.balance - amount_of c k) t recorded.wallet sum found
        ledger)

settled-KeepsLedger :
    (b s : Order) (x y : Wallet) (h : Holding) (q p c : ℕ) (w : World) (t : Trade) (db : Db)
    → Parties w.db b s x y h
    → Settles w.db b s x y h q p c t db
    → KeepsLedger w.db
    → KeepsLedger db
settled-KeepsLedger b s x y h q p c w t db parties settles ledger =
    let paid = settles.paid in
    let earned = settles.earned in
    let debit = debit_added x c _ paid settles.paid_for settles.paid_recorded in
    let after_debit =
      moved-KeepsLedger w.db (of_user b.user_id) x (x.balance - c) paid settles.paid_recorded.wallet
        debit parties.buyer_wallet ledger in
    let found =
      find_row-update_rows (of_user s.user_id) (at_version x.id x.version) _ w.db.wallets y
        (λ r. refl) (let ne = parties.wallets_differ in ground arith) parties.seller_wallet in
    let credit = credit_added y c _ earned settles.earned_recorded in
    let after_credit =
      moved-KeepsLedger (moved w.db x (x.balance - c) paid) (of_user s.user_id) y (y.balance + c)
        earned settles.earned_recorded.wallet credit found after_debit in
    subst KeepsLedger (sym settles.tables)
      (record { keys = after_credit.keys; balanced = after_credit.balanced })

-- A trade that the engine reports keeps the ledger, under the conditions of `execute_trade_effect`.
pub execute_trade-KeepsLedger :
    (incoming candidate b s : Order) (x y : Wallet) (h : Holding) (c : ℕ) (w : World) (t : Trade)
    (w' : World)
    → buy_order_id incoming candidate ≡ b.id
    → sell_order_id incoming candidate ≡ s.id
    → IsStored b
    → IsStored s
    → tradable b s * candidate.price ≡ c * 10 ^ 8
    → candidate.price < numeric_limit
    → c < numeric_limit
    → Parties w.db b s x y h
    → execute_trade incoming candidate w ≡ (ok (some t), w')
    → KeepsLedger w.db
    → KeepsLedger w'.db
execute_trade-KeepsLedger incoming candidate b s x y h c w t w' buying selling b_stored s_stored
      exact p_fits c_fits parties e ledger =
    let (able, settles) =
      execute_trade_effect incoming candidate b s x y h c w t w' buying selling b_stored s_stored
        exact p_fits c_fits parties e in
    settled-KeepsLedger b s x y h (tradable b s) candidate.price c w t w'.db parties settles ledger
