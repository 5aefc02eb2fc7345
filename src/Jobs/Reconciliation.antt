-- ===== src/Jobs/Reconciliation.antt =====
-- reconciliation.go: each wallet's balance is compared with the sum of its transactions.
use multi_trade_platform.Base.{
  ℕ, suc, ◌+◌, ◌≡◌, refl, Bool, true, false, ◌&&◌, List, [], ◌∷◌, Option, some, Result, ok, err,
  ◌==◌, if◌then◌else◌,
}
use multi_trade_platform.Base.Int.{ℤ, pos, negsuc, ◌+ℤ◌, ◌-ℤ◌}
use multi_trade_platform.Decimal.BigFloat.{NumText, number, Float, set_string, sub, cmp, greater}
use multi_trade_platform.Decimal.Exact.{of_column}
use multi_trade_platform.Store.{
  M, World, pure, attempt, read_db, statement, ◌>>=◌, Error, Wallet, WalletTransaction, TxType,
  TxStatus,
}
use multi_trade_platform.Store.Reading.{
  IsReading, >>=-IsReading, attempt-IsReading, statement-IsReading,
}

-- new(big.Float).SetString works with 64 bits.
abbrev pub default_precision : ℕ
default_precision = 64

abbrev pub is_completed : TxStatus → Bool
is_completed TxStatus.completed = true
is_completed TxStatus.failed = false

abbrev pub signed_amount : WalletTransaction → ℤ
signed_amount t = elim t.transaction_type [
  | TxType.deposit ↦ t.amount
  | TxType.withdrawal ↦ pos 0 -ℤ t.amount
]

abbrev pub counts_for : ℕ → WalletTransaction → Bool
counts_for wallet_id t = t.wallet_id == wallet_id && is_completed t.status

-- The sum that the query computes, over the completed transactions of a wallet.
unfoldable pub transaction_sum : ℕ → List WalletTransaction → ℤ
transaction_sum wallet_id [] = pos 0
transaction_sum wallet_id (t ∷ ts) =
    let rest = transaction_sum wallet_id ts in
    if counts_for wallet_id t then signed_amount t +ℤ rest else rest

-- The text of a sum, as the query returns it.
abbrev pub sum_text : ℤ → NumText
sum_text (pos n) = number false n 8
sum_text (negsuc n) = number true (suc n) 8

-- Whether the balance and the sum differ by more than 0.00000001.
abbrev pub exceeds : Wallet → Option Float → Option Float → ℕ
exceeds w (some sum) (some limit) =
    let diff = sub default_precision (of_column default_precision w.balance) sum in
    elim (cmp (record diff { neg = false }) limit) [ greater ↦ 1 | _ ↦ 0 ]
exceeds w _ _ = 0

-- 1 for a discrepancy. A wallet whose query fails is passed over.
unfoldable pub discrepancy : Wallet → Result Error ℤ → ℕ
discrepancy w (err e) = 0
discrepancy w (ok sum) =
    exceeds w (set_string default_precision (sum_text sum))
      (set_string default_precision (number false 1 8))

unfoldable pub sum_query : ℕ → M ℤ
sum_query wallet_id =
    statement (do db ← read_db; pure (transaction_sum wallet_id db.wallet_transactions))

unfoldable pub count_discrepancies : List Wallet → M ℕ
count_discrepancies [] = pure 0
count_discrepancies (w ∷ ws) = do
  r ← attempt (sum_query w.id)
  n ← count_discrepancies ws
  pure (discrepancy w r + n)

unfoldable pub select_wallets : M (List Wallet)
select_wallets = statement (do db ← read_db; pure db.wallets)

abbrev reconcile_rows : Result Error (List Wallet) → M ℕ
reconcile_rows (err e) = pure 0
reconcile_rows (ok ws) = count_discrepancies ws

-- ReconcileWallets.
unfoldable pub reconcile_wallets : M ℕ
reconcile_wallets = do r ← attempt select_wallets; reconcile_rows r

sum_query-IsReading : (id : ℕ) → IsReading (sum_query id)
unfolding sum_query ◌>>=◌
sum_query-IsReading id = statement-IsReading _ (λ w. refl)

select_wallets-IsReading : IsReading select_wallets
unfolding select_wallets ◌>>=◌
select_wallets-IsReading = statement-IsReading _ (λ w. refl)

count_discrepancies-IsReading : (ws : List Wallet) → IsReading (count_discrepancies ws)
unfolding count_discrepancies
count_discrepancies-IsReading [] = λ w. refl
count_discrepancies-IsReading (x ∷ ws) =
    >>=-IsReading _ _ (attempt-IsReading (sum_query x.id) (sum_query-IsReading x.id))
      λ r. >>=-IsReading _ _ (count_discrepancies-IsReading ws) λ n w. refl

reconcile_rows-IsReading : (r : Result Error (List Wallet)) → IsReading (reconcile_rows r)
reconcile_rows-IsReading (err e) = λ w. refl
reconcile_rows-IsReading (ok ws) = count_discrepancies-IsReading ws

-- The reconciliation of all wallets changes no table, whichever statements fail.
pub reconcile_wallets_reads : (w : World) → (reconcile_wallets w).1.db ≡ w.db
unfolding reconcile_wallets
reconcile_wallets_reads =
    >>=-IsReading _ _ (attempt-IsReading select_wallets select_wallets-IsReading)
      reconcile_rows-IsReading
