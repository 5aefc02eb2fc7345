-- ===== src/Asset/Service.antt =====
-- asset_service.go: the assets of the brokers, with their prices in the cache. Names and descriptions
-- are not modelled.
use Prim.Native.String.{String}
use multi_trade_platform.Base.{
  ℕ, ◌-◌, ◌*◌, ◌^◌, Bool, not, ◌&&◌, List, [], ◌∷◌, Option, none, some, Result, ok, err, ltb, ◌==◌,
  if◌then◌else◌, select,
}
use multi_trade_platform.Decimal.BigFloat.{NumText, malformed, number}
use multi_trade_platform.Decimal.Exact.{column}
use multi_trade_platform.Store.{
  World, M, pure, fail, fail_if, attempt, read_db, statement, ◌>>=◌, ◌>>◌, Error, Asset,
  AssetStatus,
}
use multi_trade_platform.Order.Service.{get_asset, is_active}
use multi_trade_platform.Asset.{create_asset, update_asset, disable_asset}
use multi_trade_platform.Asset.Cache.{Cache, set_price, get_price, invalidate_price}

pub record Site : Type 0 where
  pub world : World
  pub cache : Cache

pub record CreateAssetInput : Type 0 where
  pub symbol : String
  pub price : NumText
  pub quantity : NumText

pub record UpdateAssetInput : Type 0 where
  pub price : Option NumText
  pub quantity : Option NumText

-- The database first, and the cache only when it has succeeded.
unfoldable pub after : {A B : Type 0} → M A → (A → Cache → B × Cache) → Site → Result Error B × Site
after m f s =
    let (r, w) = m s.world in
    elim r [
      | ok a ↦ let (b, c) = f a s.cache in (ok b, record { world = w; cache = c })
      | err e ↦ (err e, record { world = w; cache = s.cache })
    ]

-- isDuplicateKeyError: the driver's text has the number of a broken unique index, or its name.
abbrev create_error : Error → Error
create_error Error.duplicate_key = Error.duplicate_symbol
create_error e = e

abbrev pub from_create : Result Error Asset → M Asset
from_create (ok a) = pure a
from_create (err e) = fail (create_error e)

abbrev pub cache_price : Asset → Cache → Asset × Cache
cache_price a c = (a, set_price a.id a.price c)

abbrev pub renew_price : Asset → Cache → Asset × Cache
renew_price a c = (a, set_price a.id a.price (invalidate_price a.id c))

abbrev pub drop_price : Asset → Cache → Asset × Cache
drop_price a c = (a, invalidate_price a.id c)

-- The cached price, or the asset's own, which is then cached.
unfoldable pub priced : ℕ → Asset → Cache → Asset × Cache
priced id a c =
    let (cached, c') = get_price id c in
    elim cached [ none ↦ (a, set_price id a.price c') | some p ↦ (record a { price = p }, c') ]

unfoldable pub priced_all : List Asset → Cache → List Asset × Cache
priced_all [] c = ([], c)
priced_all (a ∷ as_) c =
    let (b, c') = priced a.id a c in let (bs, c'') = priced_all as_ c' in (b ∷ bs, c'')

-- GetAsset
unfoldable pub get : ℕ → Site → Result Error Asset × Site
get id s = after (get_asset id) (priced id) s

-- DisableAsset
unfoldable pub disable : ℕ → ℕ → Site → Result Error Asset × Site
disable broker_id asset_id s = after (disable_asset broker_id asset_id) drop_price s

-- A new value is checked, and a missing one is the text of the old one.
abbrev pub checked_text : (NumText → Bool) → Option NumText → ℕ → M NumText
checked_text valid none old = pure (column old)
checked_text valid (some t) old = fail_if (not (valid t)) Error.invalid_asset_data >> pure t

-- The order of the symbols is the database's collation.
module _ (collates : String → String → Bool) where
  unfoldable pub insert_by_symbol : Asset → List Asset → List Asset
  insert_by_symbol a [] = a ∷ []
  insert_by_symbol a (b ∷ bs) =
      if collates a.symbol b.symbol then a ∷ b ∷ bs else b ∷ insert_by_symbol a bs

  unfoldable pub sort_by_symbol : List Asset → List Asset
  unfolding insert_by_symbol
  sort_by_symbol [] = []
  sort_by_symbol (a ∷ as_) = insert_by_symbol a (sort_by_symbol as_)

  -- ListActive of the repository
  unfoldable pub active_assets : M (List Asset)
  active_assets =
      statement
        (do db ← read_db; pure (sort_by_symbol (select (λ a. is_active a.status) db.assets)))

  -- ListActiveAssets
  unfoldable pub list_active : Site → Result Error (List Asset) × Site
  list_active s = after active_assets priced_all s

-- Whether Sscanf finds a positive number at the front of a text that is none as a whole.
module _ (front_positive : Bool) where
  -- validatePositiveDecimal: as a float64 the number is neither too large nor zero.
  unfoldable pub validate_positive_decimal : NumText → Bool
  validate_positive_decimal malformed = front_positive
  validate_positive_decimal (number sign c places) =
      not sign && ltb (10 ^ places) (c * 2 ^ 1075) && ltb c ((2 ^ 1024 - 2 ^ 970) * 10 ^ places)

  abbrev pub create_row : ℕ → CreateAssetInput → M Asset
  create_row broker_id input = do
    fail_if (not (validate_positive_decimal input.price)) Error.invalid_asset_data
    fail_if (not (validate_positive_decimal input.quantity)) Error.invalid_asset_data
    r ← attempt (
        create_asset (record {
          broker_id = broker_id;
          symbol = input.symbol;
          price = input.price;
          quantity = input.quantity;
          status = AssetStatus.active;
        }))
    from_create r

  -- CreateAsset
  unfoldable pub create : ℕ → CreateAssetInput → Site → Result Error Asset × Site
  create broker_id input s = after (create_row broker_id input) cache_price s

  abbrev pub update_row : ℕ → ℕ → UpdateAssetInput → M Asset
  update_row broker_id asset_id input = do
    existing ← get_asset asset_id
    fail_if (not (existing.broker_id == broker_id)) Error.asset_not_owned
    price ← checked_text validate_positive_decimal input.price existing.price
    quantity ← checked_text validate_positive_decimal input.quantity existing.quantity
    update_asset (record {
      id = existing.id;
      broker_id = existing.broker_id;
      price = price;
      quantity = quantity;
      status = existing.status;
    })

  -- UpdateAsset
  unfoldable pub update : ℕ → ℕ → UpdateAssetInput → Site → Result Error Asset × Site
  update broker_id asset_id input s = after (update_row broker_id asset_id input) renew_price s
