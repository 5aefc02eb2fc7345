-- ===== src/Wallet.antt =====
-- internal/wallet: the repository's statements and the wallet service.
pub mod Repository
pub mod Laws
pub mod Total
use Prim.Native.String.{String}
use multi_trade_platform.Base.{
  ℕ, suc, ◌+◌, ◌-◌, ◌*◌, ◌/◌, ◌<◌, Bool, ◌||◌, List, Option, none, some, Result, ltb, ◌==◌,
  if◌then◌else◌,
}
use multi_trade_platform.Decimal.BigFloat.{
  NumText, Float, set_string, cmp, less, equal, greater, add, sub, format,
}
use multi_trade_platform.Decimal.Exact.{of_column}
use multi_trade_platform.Decimal.Sign.{zero_float}
use multi_trade_platform.Store.{
  M, pure, or_fail, fail_if, ◌>>=◌, ◌>>◌, run_tx, Error, Wallet, WalletTransaction, TxType,
  Description,
}
use Repository.{
  create_wallet, get_by_user_id, get_by_user_id_for_update, update_balance, insert_transaction,
  list_transactions, count_transactions,
}

-- The service works with 64 bits where pkg/decimal has 128.
abbrev pub wallet_precision : ℕ
wallet_precision = 64

-- dto.AmountInput
pub record AmountInput : Type 0 where
  pub amount : NumText
  pub description : Description

-- The wallet that the service returns: its balance is the text that was written.
pub record UpdatedWallet : Type 0 where
  pub id : ℕ
  pub user_id : ℕ
  pub balance : NumText
  pub version : ℕ

abbrev when_positive : Float → Option Float
when_positive f = elim (cmp f zero_float) [ greater ↦ some f | _ ↦ none ]

unfoldable pub parse_positive_amount : NumText → Option Float
parse_positive_amount s = elim (set_string wallet_precision s) [
  | none ↦ none
  | some f ↦ when_positive f
]

-- mustParseBig of a column's text (`set_string-column`).
abbrev pub must_parse_big : ℕ → Float
must_parse_big c = of_column wallet_precision c

unfoldable pub create_wallet_for_user : ℕ → M (Unit {0})
create_wallet_for_user user_id = do create_wallet user_id; pure tt

unfoldable pub get_wallet : ℕ → M Wallet
get_wallet user_id = get_by_user_id user_id

abbrev pub updated : Wallet → NumText → UpdatedWallet
updated w balance = record {
  id = w.id;
  user_id = w.user_id;
  balance = balance;
  version = suc w.version;
}

-- The function that Deposit runs in its transaction.
deposit_tx : ℕ → Float → Description → M (UpdatedWallet × WalletTransaction)
deposit_tx user_id amount description = do
  w ← get_by_user_id_for_update user_id
  let balance = format (add wallet_precision (must_parse_big w.balance) amount)
  update_balance w.id balance w.version
  t ← insert_transaction w.id (format amount) TxType.deposit description
  pure (updated w balance, t)

unfoldable pub deposit : ℕ → AmountInput → M (UpdatedWallet × WalletTransaction)
unfolding deposit_tx
deposit user_id input = do
  amount ← or_fail (parse_positive_amount input.amount) Error.invalid_amount
  run_tx (deposit_tx user_id amount input.description)

abbrev pub covers : Float → Float → Bool
covers balance amount = elim (cmp balance amount) [ less ↦ Bool.false | _ ↦ Bool.true ]

-- The function that Withdraw runs in its transaction.
withdraw_tx : ℕ → Float → Description → M (UpdatedWallet × WalletTransaction)
withdraw_tx user_id amount description = do
  w ← get_by_user_id_for_update user_id
  let current = must_parse_big w.balance
  fail_if (if covers current amount then Bool.false else Bool.true) Error.insufficient_balance
  let balance = format (sub wallet_precision current amount)
  update_balance w.id balance w.version
  t ← insert_transaction w.id (format amount) TxType.withdrawal description
  pure (updated w balance, t)

unfoldable pub withdraw : ℕ → AmountInput → M (UpdatedWallet × WalletTransaction)
unfolding withdraw_tx
withdraw user_id input = do
  amount ← or_fail (parse_positive_amount input.amount) Error.invalid_amount
  run_tx (withdraw_tx user_id amount input.description)

-- dto.TransactionPage
pub record TransactionPage : Type 0 where
  pub transactions : List WalletTransaction
  pub total : ℕ
  pub page : ℕ
  pub page_size : ℕ
  pub total_pages : ℕ

-- ListTransactions, with the defaults of its page. (A negative number is treated as 0 is.)
unfoldable pub list_user_transactions : ℕ → ℕ → ℕ → M TransactionPage
list_user_transactions user_id page page_size = do
  w ← get_by_user_id user_id
  let number = if ltb page 1 then 1 else page
  let size = if ltb page_size 1 || ltb 100 page_size then 20 else page_size
  transactions ← list_transactions w.id size ((number - 1) * size)
  total ← count_transactions w.id
  let pages = (total + size - 1) / size
  pure (record {
    transactions = transactions;
    total = total;
    page = number;
    page_size = size;
    total_pages = if pages == 0 then 1 else pages;
  })
