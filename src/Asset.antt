-- ===== src/Asset.antt =====
-- internal/asset: the repository's statements that change an asset, and how the service disables one.
pub mod Laws
pub mod Cache
pub mod Service
pub mod Ends
pub mod Coherence
pub mod Run
pub mod Sorted
use Prim.Native.String.{String}
use text.Mathlib.Text.{◌==◌ as str_eq}
use multi_trade_platform.Base.{
  ℕ, Bool, not, ◌&&◌, List, [], ◌∷◌, ◌++◌, Option, none, some, ◌==◌, find_row, update_rows,
}
use multi_trade_platform.Decimal.BigFloat.{NumText}
use multi_trade_platform.Decimal.Exact.{column}
use multi_trade_platform.Store.{
  M, pure, fail, or_fail, fail_if, modify, read_db, next_serial, statement, ◌>>=◌, ◌>>◌, Error,
  Asset, AssetStatus, numeric, non_negative,
}
use multi_trade_platform.Order.Service.{get_asset}

-- What the caller of Create passes.
pub record NewAsset : Type 0 where
  pub broker_id : ℕ
  pub symbol : String
  pub price : NumText
  pub quantity : NumText
  pub status : AssetStatus

abbrev has_symbol : String → Asset → Bool
has_symbol symbol a = str_eq a.symbol symbol

unfoldable pub insert_asset : NewAsset → ℕ → ℕ → Option Asset → M Asset
insert_asset n price quantity (some a) = fail Error.duplicate_key
insert_asset n price quantity none = do
  id ← next_serial
  let a : Asset = record {
    id = id;
    broker_id = n.broker_id;
    symbol = n.symbol;
    price = price;
    quantity = quantity;
    status = n.status;
  }
  modify (λ db. record db { assets = db.assets ++ a ∷ [] })
  pure a

-- Create. A symbol is UNIQUE; price and quantity are not negative.
unfoldable pub create_asset : NewAsset → M Asset
unfolding insert_asset
create_asset n = statement (do
  price ← or_fail (non_negative (numeric n.price)) Error.refused
  quantity ← or_fail (non_negative (numeric n.quantity)) Error.refused
  db ← read_db
  insert_asset n price quantity (find_row (has_symbol n.symbol) db.assets))

-- What the caller of Update passes: the prices are texts.
pub record AssetUpdate : Type 0 where
  pub id : ℕ
  pub broker_id : ℕ
  pub price : NumText
  pub quantity : NumText
  pub status : AssetStatus

-- WHERE id = $6 AND broker_id = $7
abbrev pub is_asset_of : ℕ → ℕ → Asset → Bool
is_asset_of id broker_id a = a.id == id && a.broker_id == broker_id

abbrev pub updated_asset : ℕ → ℕ → AssetStatus → Asset → Asset
updated_asset price quantity status a = record a {
  price = price;
  quantity = quantity;
  status = status;
}

unfoldable pub store_asset : AssetUpdate → ℕ → ℕ → Option Asset → M Asset
store_asset u price quantity none = fail Error.asset_not_found
store_asset u price quantity (some a) = do
  modify (λ db. record db {
    assets =
        update_rows (is_asset_of u.id u.broker_id) (updated_asset price quantity u.status)
          db.assets;
  })
  pure (updated_asset price quantity u.status a)

unfoldable pub update_asset : AssetUpdate → M Asset
unfolding store_asset
update_asset u = statement (do
  price ← or_fail (non_negative (numeric u.price)) Error.refused
  quantity ← or_fail (non_negative (numeric u.quantity)) Error.refused
  db ← read_db
  store_asset u price quantity (find_row (is_asset_of u.id u.broker_id) db.assets))

-- The update that disables an asset: the other columns go back as they were read.
abbrev pub disabled : Asset → AssetUpdate
disabled a = record {
  id = a.id;
  broker_id = a.broker_id;
  price = column a.price;
  quantity = column a.quantity;
  status = AssetStatus.disabled;
}

-- DisableAsset, but for the cached price.
unfoldable pub disable_asset : ℕ → ℕ → M Asset
disable_asset broker_id asset_id = do
  a ← get_asset asset_id
  fail_if (not (a.broker_id == broker_id)) Error.asset_not_owned
  update_asset (disabled a)
