-- ===== src/Tests/Exchange.antt =====
-- The engine's trade with its rollbacks, and with the cache of prices, at concrete tables.
use multi_trade_platform.Base.{
  ◌≡◌, refl, arith, true, false, [], ◌∷◌, none, some, ◌==◌, if◌then◌else◌,
}
use multi_trade_platform.Decimal.BigFloat.{round, nearest, ulp, add, sub, mul, cmp, format}
use multi_trade_platform.Store.{World, statement, commit, ◌>>=◌, ◌>>◌, non_negative, numeric, units}
use multi_trade_platform.Order.Service.{get_asset}
use multi_trade_platform.Order.Repository.{get_by_id_for_update, update_fill}
use multi_trade_platform.Wallet.Repository.{
  get_by_user_id_for_update, update_balance, insert_transaction,
}
use multi_trade_platform.Portfolio.{upsert_buyer_holding, reduce_seller_holding}
use multi_trade_platform.Trade.{insert}
use multi_trade_platform.Asset.Cache.{set_price, get_price}
use multi_trade_platform.Asset.Service.{Site, after, priced, get}
use multi_trade_platform.Asset.Coherence.{find_asset}
use multi_trade_platform.Matching.Matcher.{new_status, min_big}
use multi_trade_platform.Matching.Executor.{
  execute_trade, fill_quantity, fill_order, debit_buyer, credit_seller, settle, settle_if,
  lock_orders, trade_tx, finish,
}
use multi_trade_platform.Matching.Executor.Branches.{execute_trade_by_branch}
use multi_trade_platform.Matching.Executor.Rollback.{execute_trade_by_branch_lem}
use multi_trade_platform.Matching.Prices.{execute_trade_on, get-execute_trade_on}
use multi_trade_platform.Tests.Data.{world, bid, ask, wallet_1, wallet_2, holding_2, asset_5}
use multi_trade_platform.Tests.Trades.{bid-IsStored, ask-IsStored, parties, traded}

-- The seventh statement fails, which locks the buyer's wallet.
abbrev cut_off : World
cut_off = record world { faults = false ∷ false ∷ false ∷ false ∷ false ∷ false ∷ true ∷ [] }

execute_trade_by_branch_lem_example :
    execute_trade_by_branch bid ask cut_off ≡ execute_trade bid ask cut_off
execute_trade_by_branch_lem_example = execute_trade_by_branch_lem bid ask cut_off

-- The cache has a price of 12.
abbrev exchange : Site
exchange = record {
  world = world;
  cache = record { price = λ n. if n == 5 then some 1200000000 else none; faults = [] };
}

get-execute_trade_on_example :
    (asset_5 ≡ record asset_5 { price = 1000000000 })
    × (find_asset 5 (execute_trade_on bid ask exchange).1.world.db.assets ≡ some asset_5)
unfolding execute_trade_on get after priced get_price set_price get_asset execute_trade
    fill_quantity fill_order debit_buyer credit_seller settle settle_if lock_orders trade_tx finish
    statement commit get_by_id_for_update update_fill get_by_user_id_for_update update_balance
    insert_transaction upsert_buyer_holding reduce_seller_holding insert new_status min_big ◌>>=◌
    ◌>>◌ cmp round nearest ulp non_negative numeric format units add sub mul
get-execute_trade_on_example =
    get-execute_trade_on bid ask bid ask wallet_1 wallet_2 holding_2 2000000000 exchange traded
      (execute_trade_on bid ask exchange).1 asset_5 asset_5
      (get 5 (execute_trade_on bid ask exchange).1).1 refl refl bid-IsStored ask-IsStored
      (omega arith) (omega arith) (omega arith) parties refl refl refl refl
