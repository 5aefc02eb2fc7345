-- ===== src/Tests/Data.antt =====
-- The tables of the tests: two users, 1 and 2, an asset, and an order of each user.
use multi_trade_platform.Base.{[], ◌∷◌, none, true}
use multi_trade_platform.Store.{
  World, Db, Wallet, Order, buy, sell, OrderStatus, Holding, Asset, AssetStatus, User,
}

abbrev pub wallet_1 : Wallet
wallet_1 = record { id = 11; user_id = 1; balance = 5000000000; version = 3 }

abbrev pub wallet_2 : Wallet
wallet_2 = record { id = 12; user_id = 2; balance = 700000000; version = 1 }

-- User 1 buys 2 at 10.5, user 2 sells 3 at 10.
abbrev pub bid : Order
bid = record {
  id = 21;
  user_id = 1;
  asset_id = 5;
  side = buy;
  price = 1050000000;
  quantity = 200000000;
  filled_quantity = 0;
  status = OrderStatus.pending;
  idempotency_key = none;
  created_at = 21;
}

abbrev pub ask : Order
ask = record {
  id = 22;
  user_id = 2;
  asset_id = 5;
  side = sell;
  price = 1000000000;
  quantity = 300000000;
  filled_quantity = 0;
  status = OrderStatus.pending;
  idempotency_key = none;
  created_at = 22;
}

abbrev pub holding_2 : Holding
holding_2 = record {
  user_id = 2;
  asset_id = 5;
  quantity = 400000000;
  average_buy_price = 900000000;
}

abbrev pub asset_5 : Asset
asset_5 = record {
  id = 5;
  broker_id = 9;
  symbol = "GOLD";
  price = 1000000000;
  quantity = 100000000000;
  status = AssetStatus.active;
}

abbrev pub user_1 : User
user_1 = record {
  id = 1;
  email = "ann@example.org";
  password_hash = "hash of ann";
  role = "trader";
  status = "ACTIVE";
  created_at = 1;
  deleted_at = none;
}

abbrev pub user_2 : User
user_2 = record {
  id = 2;
  email = "bob@example.org";
  password_hash = "hash of bob";
  role = "admin";
  status = "ACTIVE";
  created_at = 2;
  deleted_at = none;
}

abbrev pub db : Db
db = record {
  wallets = wallet_1 ∷ wallet_2 ∷ [];
  wallet_transactions = [];
  orders = bid ∷ ask ∷ [];
  trades = [];
  holdings = holding_2 ∷ [];
  assets = asset_5 ∷ [];
  users = user_1 ∷ user_2 ∷ [];
  audit_logs = [];
}

-- No statement fails.
abbrev pub world : World
world = record { db = db; faults = []; serial = 100 }

-- The first statement, BEGIN, fails.
abbrev pub failing : World
failing = record { db = db; faults = true ∷ []; serial = 100 }

-- The bid at a price below the ask's.
abbrev pub low_bid : Order
low_bid = record bid { price = 900000000 }

abbrev pub apart : World
apart = record world { db = record db { orders = low_bid ∷ ask ∷ [] } }
