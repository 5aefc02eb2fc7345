-- ===== src/Ledger/Run.antt =====
-- The wallets over time: any sequence of deposits, withdrawals and trades, and the job that checks them.
use multi_trade_platform.Base.{
  ℕ, ◌+◌, ◌*◌, ◌^◌, ◌≤◌, ◌<◌, ◌≡◌, sym, subst, false, none, some, ok, err, find_row,
}
use multi_trade_platform.Decimal.BigFloat.{number}
use multi_trade_platform.Decimal.Exact.{Fits}
use multi_trade_platform.Store.{
  World, Error, Wallet, WalletTransaction, Description, Order, Trade, Holding, numeric_limit,
}
use multi_trade_platform.Wallet.{UpdatedWallet, AmountInput, deposit, withdraw, wallet_precision}
use multi_trade_platform.Wallet.Repository.{of_user}
use multi_trade_platform.Wallet.Laws.{amount_of, deposit_error, withdraw_error}
use multi_trade_platform.Ledger.Moves.{
  KeepsLedger, deposit-KeepsLedger, withdraw-KeepsLedger, execute_trade-KeepsLedger,
}
use multi_trade_platform.Ledger.Audit.{reconcile_wallets_balanced}
use multi_trade_platform.Jobs.Reconciliation.{reconcile_wallets}
use multi_trade_platform.Matching.Executor.{execute_trade, buy_order_id, sell_order_id}
use multi_trade_platform.Matching.Executor.Settlement.{Parties}
use multi_trade_platform.Matching.Numbers.{IsStored, tradable}
use multi_trade_platform.Matching.Laws.{execute_trade_error, execute_trade_unmatched}

-- One call that moves money, with the amounts for which the arithmetic is exact, or that ends without
-- having moved any.
pub data Move : World → World → Type 0 where
  deposited :
      (u c k : ℕ) (d : Description) {w w' : World} (x : Wallet) (v : UpdatedWallet)
      (t : WalletTransaction)
      → k ≤ 8
      → find_row (of_user u) w.db.wallets ≡ some x
      → Fits wallet_precision (x.balance + amount_of c k + 1)
      → deposit u (record { amount = number false c k; description = d }) w ≡ (ok (v, t), w')
      → Move w w'
  withdrawn :
      (u c k : ℕ) (d : Description) {w w' : World} (x : Wallet) (v : UpdatedWallet)
      (t : WalletTransaction)
      → k ≤ 8
      → find_row (of_user u) w.db.wallets ≡ some x
      → Fits wallet_precision (x.balance + 1)
      → Fits wallet_precision (amount_of c k)
      → withdraw u (record { amount = number false c k; description = d }) w ≡ (ok (v, t), w')
      → Move w w'
  traded :
      (incoming candidate b s : Order) (x y : Wallet) (h : Holding) (c : ℕ) {w w' : World}
      (t : Trade)
      → buy_order_id incoming candidate ≡ b.id
      → sell_order_id incoming candidate ≡ s.id
      → IsStored b
      → IsStored s
      → tradable b s * candidate.price ≡ c * 10 ^ 8
      → candidate.price < numeric_limit
      → c < numeric_limit
      → Parties w.db b s x y h
      → execute_trade incoming candidate w ≡ (ok (some t), w')
      → Move w w'
  deposit_failed :
      (u : ℕ) (input : AmountInput) {w w' : World} (e : Error)
      → deposit u input w ≡ (err e, w')
      → Move w w'
  withdraw_failed :
      (u : ℕ) (input : AmountInput) {w w' : World} (e : Error)
      → withdraw u input w ≡ (err e, w')
      → Move w w'
  trade_failed :
      (incoming candidate : Order) {w w' : World} (e : Error)
      → execute_trade incoming candidate w ≡ (err e, w')
      → Move w w'
  unmatched :
      (incoming candidate : Order) {w w' : World}
      → execute_trade incoming candidate w ≡ (ok none, w')
      → Move w w'

pub data Moves : World → World → Type 0 where
  still : {w : World} → Moves w w
  then_move : {w w₁ w' : World} → Moves w w₁ → Move w₁ w' → Moves w w'

Move-KeepsLedger : {w w' : World} → Move w w' → KeepsLedger w.db → KeepsLedger w'.db
Move-KeepsLedger (deposited u c k d {w} {w'} x v t short found fits e) ledger =
    deposit-KeepsLedger u c k d w x v t w' short found fits e ledger
Move-KeepsLedger (withdrawn u c k d {w} {w'} x v t short found fits small e) ledger =
    withdraw-KeepsLedger u c k d w x v t w' short found fits small e ledger
Move-KeepsLedger
      (traded incoming candidate b s x y h c {w} {w'} t buying selling b_stored s_stored exact
        p_fits c_fits parties e)
      ledger =
    execute_trade-KeepsLedger incoming candidate b s x y h c w t w' buying selling b_stored s_stored
      exact p_fits c_fits parties e ledger
Move-KeepsLedger (deposit_failed u input {w} {w'} e h) ledger =
    subst KeepsLedger (sym (deposit_error u input w e w' h)) ledger
Move-KeepsLedger (withdraw_failed u input {w} {w'} e h) ledger =
    subst KeepsLedger (sym (withdraw_error u input w e w' h)) ledger
Move-KeepsLedger (trade_failed incoming candidate {w} {w'} e h) ledger =
    subst KeepsLedger (sym (execute_trade_error incoming candidate w e w' h)) ledger
Move-KeepsLedger (unmatched incoming candidate {w} {w'} h) ledger =
    subst KeepsLedger (sym (execute_trade_unmatched incoming candidate w w' h)) ledger

Moves-KeepsLedger : {w w' : World} → Moves w w' → KeepsLedger w.db → KeepsLedger w'.db
Moves-KeepsLedger still ledger = ledger
Moves-KeepsLedger (then_move run last) ledger = Move-KeepsLedger last (Moves-KeepsLedger run ledger)

-- If every balance is the sum of its completed transactions, then it is so after any sequence of
-- deposits, withdrawals and trades (`Move`: those that succeed, with the amounts for which the
-- arithmetic is exact, and those that fail at any statement or trade nothing), and ReconcileWallets
-- finds no discrepancy, whichever of its queries fail.
pub reconcile_wallets-Moves :
    (w w' : World)
    → KeepsLedger w.db
    → Moves w w'
    → KeepsLedger w'.db × ((reconcile_wallets w').0 ≡ ok 0)
reconcile_wallets-Moves w w' ledger run =
    let kept = Moves-KeepsLedger run ledger in (kept, reconcile_wallets_balanced w' kept)
