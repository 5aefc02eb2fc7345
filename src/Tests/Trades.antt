-- ===== src/Tests/Trades.antt =====
-- The matching engine at concrete tables.
use mathlib.Core.List.{Memᴰ}
use mathlib.Core.List.Memᴰ.{head, tail}
use multi_trade_platform.Base.{
  ok, [], ◌∷◌, ◌≡◌, refl, true, false, arith, none, some, if◌then◌else◌,
}
use multi_trade_platform.Decimal.BigFloat.{round, nearest, ulp, add, sub, mul, cmp, format}
use multi_trade_platform.Store.{
  World, Order, OrderStatus, Trade, sell, statement, commit, ◌>>=◌, ◌>>◌, non_negative, numeric,
  units,
}
use multi_trade_platform.Order.Repository.{
  get_by_id_for_update, update_fill, is_candidate, insert_row, sort_rows,
  get_open_orders_for_matching,
}
use multi_trade_platform.Wallet.Repository.{
  get_by_user_id_for_update, update_balance, insert_transaction,
}
use multi_trade_platform.Portfolio.{upsert_buyer_holding, reduce_seller_holding}
use multi_trade_platform.Trade.{insert}
use multi_trade_platform.Matching.Matcher.{
  must_parse_big, crosses, first_crossing, find_best_candidate, new_status, min_big,
}
use multi_trade_platform.Matching.Executor.{
  execute_trade, fill_quantity, fill_order, debit_buyer, credit_seller, settle, settle_if,
  lock_orders, trade_tx, finish,
}
use multi_trade_platform.Matching.Executor.Settlement.{Parties, Settles}
use multi_trade_platform.Matching.Numbers.{IsStored, tradable, can_trade, fill_quantity_lem}
use multi_trade_platform.Matching.Priority.{is_eligible}
use multi_trade_platform.Matching.Choice.{
  is_best, find_best_candidate-best, find_best_candidate-none,
}
use multi_trade_platform.Wallet.Total.{total, HasKeys}
use multi_trade_platform.Matching.Conservation.{execute_trade_conserves}
use multi_trade_platform.Matching.Engine.{process_order, out_of_fuel}
use multi_trade_platform.Matching.Rounds.{process_order_endless}
use multi_trade_platform.Matching.Laws.{execute_trade_effect}
use multi_trade_platform.Tests.Data.{world, apart, bid, low_bid, ask, wallet_1, wallet_2, holding_2}

pub bid-IsStored : IsStored bid
bid-IsStored = record { price_fits = omega arith; quantity_fits = omega arith }

pub ask-IsStored : IsStored ask
ask-IsStored = record { price_fits = omega arith; quantity_fits = omega arith }

pub parties : Parties world.db bid ask wallet_1 wallet_2 holding_2
parties = record {
  buy_order = refl;
  sell_order = refl;
  orders_differ = omega arith;
  buyer_wallet = refl;
  seller_wallet = refl;
  wallets_differ = omega arith;
  users_differ = omega arith;
  seller_holding = refl;
  buyer_balance = omega arith;
  seller_balance = omega arith;
}

-- 2 at 10.
abbrev pub traded : Trade
traded = record {
  id = 100;
  buy_order_id = 21;
  sell_order_id = 22;
  asset_id = 5;
  price = 1000000000;
  quantity = 200000000;
  buyer_id = 1;
  seller_id = 2;
}

execute_trade_effect_example :
    (can_trade bid ask ≡ true)
    × Settles world.db bid ask wallet_1 wallet_2 holding_2
        (tradable bid ask)
        1000000000
        2000000000
        traded
        (execute_trade bid ask world).1.db
unfolding execute_trade fill_quantity fill_order debit_buyer credit_seller settle settle_if
    lock_orders trade_tx finish statement commit get_by_id_for_update update_fill
    get_by_user_id_for_update update_balance insert_transaction upsert_buyer_holding
    reduce_seller_holding insert new_status min_big ◌>>=◌ ◌>>◌ cmp round nearest ulp non_negative
    numeric format units add sub mul
execute_trade_effect_example =
    execute_trade_effect bid ask bid ask wallet_1 wallet_2 holding_2 2000000000 world traded
      (execute_trade bid ask world).1 refl refl bid-IsStored ask-IsStored (omega arith)
      (omega arith) (omega arith) parties refl

wallets-HasKeys : HasKeys world.db.wallets
wallets-HasKeys = (refl, (refl, tt))

execute_trade_conserves_example :
    total (execute_trade bid ask world).1.db.wallets ≡ total world.db.wallets
unfolding execute_trade fill_quantity fill_order debit_buyer credit_seller settle settle_if
    lock_orders trade_tx finish statement commit get_by_id_for_update update_fill
    get_by_user_id_for_update update_balance insert_transaction upsert_buyer_holding
    reduce_seller_holding insert new_status min_big ◌>>=◌ ◌>>◌ cmp round nearest ulp non_negative
    numeric format units add sub mul
execute_trade_conserves_example =
    execute_trade_conserves bid ask bid ask wallet_1 wallet_2 holding_2 2000000000 world traded
      (execute_trade bid ask world).1 refl refl bid-IsStored ask-IsStored (omega arith)
      (omega arith) (omega arith) parties wallets-HasKeys refl

find_best_candidate-best_example :
    Memᴰ ask world.db.orders
    × (is_candidate 5 sell ask ≡ true)
    × (is_eligible bid ask ≡ true)
    × (is_best 5 sell bid ask world.db.orders ≡ true)
unfolding find_best_candidate get_open_orders_for_matching first_crossing crosses insert_row
    sort_rows statement ◌>>=◌ cmp round nearest ulp
find_best_candidate-best_example =
    find_best_candidate-best 5 sell bid world ask (find_best_candidate 5 sell bid world).1 refl

find_best_candidate-none_example : is_eligible low_bid ask ≡ false
unfolding find_best_candidate get_open_orders_for_matching first_crossing crosses insert_row
    sort_rows statement ◌>>=◌ cmp round nearest ulp
find_best_candidate-none_example =
    find_best_candidate-none 5 sell low_bid apart (find_best_candidate 5 sell low_bid apart).1 ask
      refl (tail (head refl)) refl

fill_quantity_lem_example :
    fill_quantity bid ask
    ≡ (if can_trade bid ask then some (must_parse_big (tradable bid ask)) else none)
fill_quantity_lem_example = fill_quantity_lem bid ask bid-IsStored ask-IsStored

-- The ask with nothing left, but open.
abbrev spent_ask : Order
spent_ask = record ask { filled_quantity = 300000000; status = OrderStatus.partially_filled }

abbrev spent : World
spent = record world { db = record world.db { orders = bid ∷ spent_ask ∷ [] } }

spent_ask-IsStored : IsStored spent_ask
spent_ask-IsStored = record { price_fits = omega arith; quantity_fits = omega arith }

process_order_endless_example : process_order 1000 bid spent ≡ (ok out_of_fuel, spent)
unfolding find_best_candidate get_open_orders_for_matching first_crossing crosses insert_row
    sort_rows statement ◌>>=◌ cmp round nearest ulp
process_order_endless_example =
    process_order_endless 1000 bid bid spent_ask bid spent_ask spent refl refl refl (omega arith)
      refl refl refl refl refl (omega arith) bid-IsStored spent_ask-IsStored refl
