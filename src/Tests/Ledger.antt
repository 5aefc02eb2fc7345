-- ===== src/Tests/Ledger.antt =====
-- The ledger at tables with a deposit for each wallet.
use multi_trade_platform.Base.{Bool, ◌==◌, ℕ, ◌≡◌, refl, false, arith, [], ◌∷◌, ok}
use multi_trade_platform.Base.Int.{pos, ◌+ℤ◌}
use multi_trade_platform.Decimal.BigFloat.{
  number, set_string, round, nearest, ulp, add, sub, mul, cmp, format,
}
use multi_trade_platform.Store.{
  World, Error, Wallet, WalletTransaction, TxType, TxStatus, Description, statement, commit, ◌>>=◌,
  ◌>>◌, non_negative, numeric, units,
}
use multi_trade_platform.Wallet.{AmountInput, deposit, parse_positive_amount}
use multi_trade_platform.Order.Repository.{get_by_id_for_update, update_fill}
use multi_trade_platform.Wallet.Repository.{
  get_by_user_id_for_update, update_balance, insert_transaction,
}
use multi_trade_platform.Portfolio.{upsert_buyer_holding, reduce_seller_holding}
use multi_trade_platform.Trade.{insert}
use multi_trade_platform.Matching.Matcher.{new_status, min_big}
use multi_trade_platform.Matching.Executor.{
  execute_trade, fill_quantity, fill_order, debit_buyer, credit_seller, settle, settle_if,
  lock_orders, trade_tx, finish,
}
use multi_trade_platform.Matching.Executor.Settlement.{Parties}
use multi_trade_platform.Jobs.Reconciliation.{transaction_sum, reconcile_wallets}
use multi_trade_platform.Jobs.Settlement.{verify_trade_settlements}
use multi_trade_platform.Ledger.Settled.{AllPaid}
use multi_trade_platform.Ledger.Payments.{Mentions, verify_trade_settlements-execute_trade}
use multi_trade_platform.Ledger.Moves.{KeepsLedger}
use multi_trade_platform.Ledger.Run.{
  still, then_move, traded, deposit_failed, reconcile_wallets-Moves,
}
use multi_trade_platform.Tests.Data.{world, bid, ask, wallet_1, wallet_2, holding_2}
use multi_trade_platform.Tests.Trades.{bid-IsStored, ask-IsStored, traded as trade}

abbrev opening : ℕ → Wallet → WalletTransaction
opening id x = record {
  id = id;
  wallet_id = x.id;
  amount = pos x.balance;
  transaction_type = TxType.deposit;
  status = TxStatus.completed;
  description = Description.no_text;
}

abbrev opened : World
opened = record world {
  db = record world.db { wallet_transactions = opening 1 wallet_1 ∷ opening 2 wallet_2 ∷ [] };
}

opened-KeepsLedger : KeepsLedger opened.db
unfolding transaction_sum ◌+ℤ◌
opened-KeepsLedger = record { keys = (refl, (refl, tt)); balanced = (refl, (refl, tt)) }

abbrev nothing : AmountInput
nothing = record { amount = number false 0 0; description = Description.no_text }

parties : Parties opened.db bid ask wallet_1 wallet_2 holding_2
parties = record {
  buy_order = refl;
  sell_order = refl;
  orders_differ = omega arith;
  buyer_wallet = refl;
  seller_wallet = refl;
  wallets_differ = omega arith;
  users_differ = omega arith;
  seller_holding = refl;
  buyer_balance = omega arith;
  seller_balance = omega arith;
}

-- A trade, and a deposit of nothing, which is refused.
reconcile_wallets-Moves_example :
    let w = (execute_trade bid ask opened).1 in KeepsLedger w.db × ((reconcile_wallets w).0 ≡ ok 0)
unfolding execute_trade fill_quantity fill_order debit_buyer credit_seller settle settle_if
    lock_orders trade_tx finish statement commit get_by_id_for_update update_fill
    get_by_user_id_for_update update_balance insert_transaction upsert_buyer_holding
    reduce_seller_holding insert new_status min_big ◌>>=◌ ◌>>◌ cmp round nearest ulp non_negative
    numeric format units add sub mul deposit parse_positive_amount set_string
reconcile_wallets-Moves_example =
    reconcile_wallets-Moves opened (execute_trade bid ask opened).1 opened-KeepsLedger (
      then_move
        (then_move still (
          traded bid ask bid ask wallet_1 wallet_2 holding_2 2000000000 trade refl refl bid-IsStored
            ask-IsStored (omega arith) (omega arith) (omega arith) parties refl))
        (deposit_failed 1 nothing Error.invalid_amount refl))

abbrev fill_of : ℕ → Description → Bool
fill_of n (Description.trade_fill side id) = n == id
fill_of n d = Bool.false

fill_of-Mentions : Mentions fill_of
fill_of-Mentions = record { fills = λ side n. ground arith }

verify_trade_settlements-execute_trade_example :
    let w = (execute_trade bid ask opened).1 in
    AllPaid fill_of w.db w.db.trades
    × ((verify_trade_settlements fill_of (record w { faults = [] })).0 ≡ ok 0)
unfolding execute_trade fill_quantity fill_order debit_buyer credit_seller settle settle_if
    lock_orders trade_tx finish statement commit get_by_id_for_update update_fill
    get_by_user_id_for_update update_balance insert_transaction upsert_buyer_holding
    reduce_seller_holding insert new_status min_big ◌>>=◌ ◌>>◌ cmp round nearest ulp non_negative
    numeric format units add sub mul
verify_trade_settlements-execute_trade_example =
    verify_trade_settlements-execute_trade fill_of fill_of-Mentions bid ask bid ask wallet_1
      wallet_2 holding_2 2000000000 opened trade (execute_trade bid ask opened).1 refl refl
      bid-IsStored ask-IsStored (omega arith) (omega arith) (omega arith) parties
      (unfold AllPaid in tt) refl
