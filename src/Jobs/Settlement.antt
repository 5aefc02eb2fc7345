-- ===== src/Jobs/Settlement.antt =====
-- settlement.go: for each trade there is to be a payment of the buyer and one to the seller.
use multi_trade_platform.Base.{
  ℕ, suc, ◌+◌, ◌*◌, ◌^◌, Bool, true, false, not, ◌&&◌, ◌||◌, List, [], ◌∷◌, Result, ok, err, ◌==◌,
}
use multi_trade_platform.Base.Int.{ℤ, pos, negsuc}
use multi_trade_platform.Decimal.BigFloat.{NumText, number, malformed, mul, format}
use multi_trade_platform.Decimal.Exact.{of_column}
use multi_trade_platform.Store.{
  M, pure, attempt, read_db, statement, ◌>>=◌, Error, Wallet, WalletTransaction, TxType,
  Description, Trade,
}
use multi_trade_platform.Jobs.Reconciliation.{default_precision, is_completed}

-- costStr: the product of price and quantity with eight places.
unfoldable pub cost_text : Trade → NumText
cost_text t = format (
    mul default_precision (of_column default_precision t.price)
      (of_column default_precision t.quantity))

-- wt.amount = $2
abbrev pub is_amount : NumText → ℤ → Bool
is_amount malformed amount = false
is_amount (number neg n places) (pos m) = (not neg || n == 0) && m * 10 ^ places == n * 10 ^ 8
is_amount (number neg n places) (negsuc m) = neg && suc m * 10 ^ places == n * 10 ^ 8

abbrev pub same_type : TxType → TxType → Bool
same_type TxType.deposit TxType.deposit = true
same_type TxType.withdrawal TxType.withdrawal = true
same_type TxType.deposit TxType.withdrawal = false
same_type TxType.withdrawal TxType.deposit = false

-- LIKE on the text of a description: whether it has "order #N" in it.
module _ (mentions : ℕ → Description → Bool) where
  -- The conditions of the query on a transaction of wallet x.
  abbrev pub matches_fill : TxType → NumText → ℕ → ℕ → WalletTransaction → Bool
  matches_fill kind cost order_id wallet_id t =
      t.wallet_id == wallet_id
      && same_type t.transaction_type kind
      && is_amount cost t.amount
      && is_completed t.status
      && mentions order_id t.description

  unfoldable pub any_transaction : TxType → NumText → ℕ → ℕ → List WalletTransaction → Bool
  any_transaction kind cost order_id wallet_id [] = false
  any_transaction kind cost order_id wallet_id (t ∷ ts) =
      matches_fill kind cost order_id wallet_id t || any_transaction kind cost order_id wallet_id ts

  -- The join with the wallets of the user.
  unfoldable pub any_wallet : ℕ → TxType → NumText → ℕ → List Wallet → List WalletTransaction → Bool
  any_wallet user_id kind cost order_id [] ts = false
  any_wallet user_id kind cost order_id (x ∷ xs) ts =
      (x.user_id == user_id && any_transaction kind cost order_id x.id ts)
      || any_wallet user_id kind cost order_id xs ts

  -- SELECT EXISTS(...)
  unfoldable pub transaction_exists : ℕ → TxType → NumText → ℕ → M Bool
  transaction_exists user_id kind cost order_id = statement (do
    db ← read_db
    pure (any_wallet user_id kind cost order_id db.wallets db.wallet_transactions))

  -- A query that fails counts like a transaction that is missing.
  abbrev pub missing : Result Error Bool → ℕ
  missing (ok true) = 0
  missing (ok false) = 1
  missing (err e) = 1

  unfoldable pub check_trade : Trade → M ℕ
  check_trade t = do
    paid ← attempt (transaction_exists t.buyer_id TxType.withdrawal (cost_text t) t.buy_order_id)
    earned ← attempt (transaction_exists t.seller_id TxType.deposit (cost_text t) t.sell_order_id)
    pure (missing paid + missing earned)

  unfoldable pub check_trades : List Trade → M ℕ
  check_trades [] = pure 0
  check_trades (t ∷ ts) = do n ← check_trade t; rest ← check_trades ts; pure (n + rest)

  abbrev settle_rows : Result Error (List Trade) → M ℕ
  settle_rows (err e) = pure 0
  settle_rows (ok ts) = check_trades ts

  abbrev pub select_trades : M (List Trade)
  select_trades = statement (do db ← read_db; pure db.trades)

  -- VerifyTradeSettlements
  unfoldable pub verify_trade_settlements : M ℕ
  verify_trade_settlements = do r ← attempt select_trades; settle_rows r
