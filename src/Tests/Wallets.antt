-- ===== src/Tests/Wallets.antt =====
-- The wallet service at concrete tables.
use multi_trade_platform.Base.{◌≡◌, refl, ◌≤◌, false, arith}
use multi_trade_platform.Base.Int.{pos}
use multi_trade_platform.Decimal.BigFloat.{
  number, set_string, round, nearest, ulp, add, sub, cmp, format,
}
use multi_trade_platform.Decimal.Exact.{column}
use multi_trade_platform.Store.{
  WalletTransaction, TxType, TxStatus, Description, statement, run_tx, commit, ◌>>=◌, ◌>>◌,
  non_negative, numeric, units,
}
use multi_trade_platform.Wallet.{AmountInput, updated, deposit, withdraw, parse_positive_amount}
use multi_trade_platform.Wallet.Repository.{
  get_by_user_id_for_update, update_balance, insert_transaction,
}
use multi_trade_platform.Wallet.Repository.Effects.{Records}
use multi_trade_platform.Wallet.Laws.{moved, deposit_effect, withdraw_effect}
use multi_trade_platform.Tests.Data.{world, wallet_1}

-- "12.5"
abbrev input : AmountInput
input = record { amount = number false 125 1; description = Description.no_text }

abbrev moved_by : TxType → WalletTransaction
moved_by kind = record {
  id = 100;
  wallet_id = 11;
  amount = pos 1250000000;
  transaction_type = kind;
  status = TxStatus.completed;
  description = Description.no_text;
}

deposit_effect_example :
    (updated wallet_1 (column 6250000000) ≡ updated wallet_1 (column 6250000000))
    × Records 11 1250000000 TxType.deposit Description.no_text (moved_by TxType.deposit)
    × ((deposit 1 input world).1.db ≡ moved world.db wallet_1 6250000000 (moved_by TxType.deposit))
unfolding deposit parse_positive_amount statement run_tx commit get_by_user_id_for_update
    update_balance insert_transaction ◌>>=◌ ◌>>◌ set_string cmp round nearest ulp non_negative
    numeric format units add sub
deposit_effect_example =
    deposit_effect 1 125 1 Description.no_text world wallet_1 (updated wallet_1 (column 6250000000))
      (moved_by TxType.deposit) (deposit 1 input world).1 (omega arith) refl (omega arith) refl

withdraw_effect_example :
    (1250000000 ≤ 5000000000)
    × (updated wallet_1 (column 3750000000) ≡ updated wallet_1 (column 3750000000))
    × Records 11 1250000000 TxType.withdrawal Description.no_text (moved_by TxType.withdrawal)
    × ((withdraw 1 input world).1.db
        ≡ moved world.db wallet_1 3750000000 (moved_by TxType.withdrawal))
unfolding withdraw parse_positive_amount statement run_tx commit get_by_user_id_for_update
    update_balance insert_transaction ◌>>=◌ ◌>>◌ set_string cmp round nearest ulp non_negative
    numeric format units add sub
withdraw_effect_example =
    withdraw_effect 1 125 1 Description.no_text world wallet_1
      (updated wallet_1 (column 3750000000)) (moved_by TxType.withdrawal) (withdraw 1 input world).1
      (omega arith) refl (omega arith) (omega arith) refl
