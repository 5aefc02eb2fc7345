-- ===== src/Store/Rows.antt =====
-- The rows of the tables, as the models in internal/ scan them. NUMERIC(20, 8) columns are counts of
-- 10^-8 (an amount of money moved may have a sign); ids and times are numbers.
use Prim.Native.String.{String}
use multi_trade_platform.Base.{ℕ, List, Option}
use multi_trade_platform.Base.Int.{ℤ}

-- internal/order/model.go
pub data Side : Type 0 where
  buy sell : Side

pub data OrderStatus : Type 0 where
  pending partially_filled filled cancelled : OrderStatus

pub record Order : Type 0 where
  pub id : ℕ
  pub user_id : ℕ
  pub asset_id : ℕ
  pub side : Side
  pub price : ℕ
  pub quantity : ℕ
  pub filled_quantity : ℕ
  pub status : OrderStatus
  pub idempotency_key : Option String
  pub created_at : ℕ

-- internal/wallet/model.go
pub data TxType : Type 0 where
  deposit withdrawal : TxType

pub data TxStatus : Type 0 where
  completed failed : TxStatus

pub record Wallet : Type 0 where
  pub id : ℕ
  pub user_id : ℕ
  pub balance : ℕ
  pub version : ℕ

-- The text of a wallet transaction: none, the user's, or "Trade fill: buy order #7".
pub data Description : Type 0 where
  no_text : Description
  user_text : String → Description
  trade_fill : Side → ℕ → Description

-- internal/wallet/transaction.go
pub record WalletTransaction : Type 0 where
  pub id : ℕ
  pub wallet_id : ℕ
  pub amount : ℤ
  pub transaction_type : TxType
  pub status : TxStatus
  pub description : Description

-- internal/portfolio/model.go
pub record Holding : Type 0 where
  pub user_id : ℕ
  pub asset_id : ℕ
  pub quantity : ℕ
  pub average_buy_price : ℕ

-- internal/trade/model.go
pub record Trade : Type 0 where
  pub id : ℕ
  pub buy_order_id : ℕ
  pub sell_order_id : ℕ
  pub asset_id : ℕ
  pub price : ℕ
  pub quantity : ℕ
  pub buyer_id : ℕ
  pub seller_id : ℕ

-- internal/asset/model.go
pub data AssetStatus : Type 0 where
  active disabled : AssetStatus

pub record Asset : Type 0 where
  pub id : ℕ
  pub broker_id : ℕ
  pub symbol : String
  pub price : ℕ
  pub quantity : ℕ
  pub status : AssetStatus

-- internal/user/model.go. A deleted row keeps its place.
pub record User : Type 0 where
  pub id : ℕ
  pub email : String
  pub password_hash : String
  pub role : String
  pub status : String
  pub created_at : ℕ
  pub deleted_at : Option ℕ

-- The text of an audit log, as its pattern with what it names: "Admin #1 set user #2 status to SUSPENDED".
pub data Details : Type 0 where
  status_set : ℕ → ℕ → String → Details
  created_text : ℕ → String → String → ℕ → String → Details
  cancelled_text : ℕ → Details
  buyer_text seller_text : ℕ → ℕ → String → ℕ → String → Details
  wallet_text : ℕ → String → String → String → Details

-- internal/audit/model.go
pub record AuditLog : Type 0 where
  pub id : ℕ
  pub user_id : Option ℕ
  pub action : String
  pub details : Option Details
  pub ip_address : Option String
  pub created_at : ℕ

pub record Db : Type 0 where
  pub wallets : List Wallet
  pub wallet_transactions : List WalletTransaction
  pub orders : List Order
  pub trades : List Trade
  pub holdings : List Holding
  pub assets : List Asset
  pub users : List User
  pub audit_logs : List AuditLog
