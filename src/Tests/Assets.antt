-- ===== src/Tests/Assets.antt =====
-- The asset service at concrete tables and caches.
use multi_trade_platform.Base.{
  ◌≡◌, refl, arith, List, true, false, [], ◌∷◌, none, some, ◌==◌, if◌then◌else◌,
}
use multi_trade_platform.Decimal.BigFloat.{number}
use multi_trade_platform.Store.{Asset, statement, ◌>>=◌, ◌>>◌, non_negative, numeric, units}
use multi_trade_platform.Order.Service.{get_asset}
use multi_trade_platform.Asset.{update_asset, store_asset}
use multi_trade_platform.Asset.Cache.{set_price, get_price, invalidate_price}
use multi_trade_platform.Asset.Service.{
  Site, UpdateAssetInput, after, priced, get, update, validate_positive_decimal,
}
use multi_trade_platform.Asset.Coherence.{IsSound, find_asset}
use multi_trade_platform.Asset.Run.{
  Event, asset_updated, asset_read, perform, perform_all, get-current, update_stale,
}
use multi_trade_platform.Tests.Data.{world, asset_5}

abbrev site : Site
site = record {
  world = world;
  cache = record { price = λ n. if n == 5 then some 1000000000 else none; faults = [] };
}

site-IsSound : IsSound site
site-IsSound = record {
  redis_up = refl;
  fresh = λ n le. ground arith;
  coherent = λ n p cached. (asset_5, ground arith, ground arith);
}

-- The price becomes 12.
abbrev dearer : UpdateAssetInput
dearer = record { price = some (number false 12 0); quantity = none }

abbrev asset_at_12 : Asset
asset_at_12 = record asset_5 { price = 1200000000 }

abbrev events : List Event
events = asset_read 5 ∷ asset_updated 9 5 dearer ∷ []

get-current_example :
    (find_asset 5 (perform_all false events site).world.db.assets ≡ some asset_at_12)
    × ((get 5 (perform_all false events site)).1.world.db
        ≡ (perform_all false events site).world.db)
unfolding perform perform_all get update after priced set_price get_price invalidate_price
    update_asset store_asset get_asset validate_positive_decimal statement ◌>>=◌ ◌>>◌ non_negative
    numeric units
get-current_example =
    get-current false events site 5 asset_at_12 (get 5 (perform_all false events site)).1
      site-IsSound refl

abbrev redis_down : Site
redis_down = record site { cache = record { price = site.cache.price; faults = true ∷ true ∷ [] } }

abbrev updated_site : Site
updated_site = (update false 9 5 dearer redis_down).1

update_stale_example : asset_5.price ≡ 1000000000
unfolding get update after priced set_price get_price invalidate_price update_asset store_asset
    get_asset validate_positive_decimal statement ◌>>=◌ ◌>>◌ non_negative numeric units
update_stale_example =
    update_stale false 9 5 1000000000 dearer redis_down updated_site (get 5 updated_site).1
      asset_at_12 asset_5 refl refl refl refl
