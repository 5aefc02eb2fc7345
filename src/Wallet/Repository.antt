-- ===== src/Wallet/Repository.antt =====
-- internal/wallet/repository: one statement each.
pub mod Effects
use multi_trade_platform.Base.{
  ℕ, suc, Bool, ◌&&◌, List, [], ◌∷◌, ◌++◌, Option, none, some, ◌==◌, find_row, update_rows, select,
  length, take, drop,
}
use multi_trade_platform.Base.Newest.{newest_first}
use multi_trade_platform.Base.Int.{ℤ}
use multi_trade_platform.Decimal.BigFloat.{NumText}
use multi_trade_platform.Store.{
  M, pure, fail, or_fail, modify, read_db, next_serial, statement, ◌>>=◌, ◌>>◌, Error, Db, Wallet,
  WalletTransaction, TxType, TxStatus, Description, numeric, non_negative,
}

abbrev pub of_user : ℕ → Wallet → Bool
of_user user_id w = w.user_id == user_id

abbrev new_wallet : ℕ → ℕ → Wallet
new_wallet id user_id = record { id = id; user_id = user_id; balance = 0; version = 1 }

insert_wallet : ℕ → Option Wallet → M Wallet
insert_wallet user_id (some w) = fail Error.refused
insert_wallet user_id none = do
  id ← next_serial
  modify (λ db. record db { wallets = db.wallets ++ new_wallet id user_id ∷ [] })
  pure (new_wallet id user_id)

-- CreateWallet. A user has one wallet: the column is UNIQUE.
unfoldable pub create_wallet : ℕ → M Wallet
unfolding insert_wallet
create_wallet user_id =
    statement (do db ← read_db; insert_wallet user_id (find_row (of_user user_id) db.wallets))

unfoldable pub get_by_user_id : ℕ → M Wallet
get_by_user_id user_id =
    statement
      (do db ← read_db; or_fail (find_row (of_user user_id) db.wallets) Error.wallet_not_found)

-- The row stays locked until the transaction ends, so nothing else runs in between.
unfoldable pub get_by_user_id_for_update : ℕ → M Wallet
get_by_user_id_for_update user_id =
    statement
      (do db ← read_db; or_fail (find_row (of_user user_id) db.wallets) Error.wallet_not_found)

-- WHERE id = $2 AND version = $3
abbrev pub at_version : ℕ → ℕ → Wallet → Bool
at_version id version w = w.id == id && w.version == version

abbrev pub set_balance : ℕ → ℕ → ℕ → List Wallet → List Wallet
set_balance id version n =
    update_rows (at_version id version) (λ w. record w { balance = n; version = suc w.version })

unfoldable pub store_balance : ℕ → ℕ → NumText → Option Wallet → M (Unit {0})
store_balance id version balance none = fail Error.version_conflict
store_balance id version balance (some w) = do
  n ← or_fail (non_negative (numeric balance)) Error.refused
  modify (λ db. record db { wallets = set_balance id version n db.wallets })

unfoldable pub update_balance : ℕ → NumText → ℕ → M (Unit {0})
unfolding store_balance
update_balance id balance version = statement (do
  db ← read_db
  store_balance id version balance (find_row (at_version id version) db.wallets))

-- InsertTransaction. Every caller passes the status COMPLETED and no reference.
unfoldable pub insert_transaction : ℕ → NumText → TxType → Description → M WalletTransaction
insert_transaction wallet_id amount kind description = statement (do
  n ← or_fail (numeric amount) Error.refused
  id ← next_serial
  let t : WalletTransaction = record {
    id = id;
    wallet_id = wallet_id;
    amount = n;
    transaction_type = kind;
    status = TxStatus.completed;
    description = description;
  }
  modify (λ db. record db { wallet_transactions = db.wallet_transactions ++ t ∷ [] })
  pure t)

abbrev of_wallet : ℕ → WalletTransaction → Bool
of_wallet wallet_id t = t.wallet_id == wallet_id

-- ListTransactions: ORDER BY created_at DESC. Ids and times grow together (`serial`), so
-- the id stands for the time, a column that the row leaves out.
unfoldable pub list_transactions : ℕ → ℕ → ℕ → M (List WalletTransaction)
list_transactions wallet_id limit offset = statement (do
  db ← read_db
  pure (
      take limit (
        drop offset (
          newest_first WalletTransaction.id
            (select (of_wallet wallet_id) db.wallet_transactions)))))

unfoldable pub count_transactions : ℕ → M ℕ
count_transactions wallet_id =
    statement (do db ← read_db; pure (length (select (of_wallet wallet_id) db.wallet_transactions)))
