-- ===== src/Http/Assets.antt =====
-- asset_handler.go: the handlers of /assets, on the tables and the cache.
use Prim.Native.String.{String}
use multi_trade_platform.Base.{ℕ, Bool, Option}
use multi_trade_platform.Base.Int.{ℤ}
use multi_trade_platform.Store.{Error, Asset}
use multi_trade_platform.Asset.Service as Service
use multi_trade_platform.Asset.Service.{Site, CreateAssetInput, UpdateAssetInput, list_active}
use multi_trade_platform.Http.{
  Reply, Handler, reply, refuse, refuse_with, must_user_id, bound, with_path_id, respond_with,
  asset_body, assets_body,
}

abbrev pub create_asset_failure : Error → Reply
create_asset_failure Error.duplicate_symbol = refuse_with 409 Error.duplicate_symbol
create_asset_failure Error.invalid_asset_data = refuse_with 400 Error.invalid_asset_data
create_asset_failure e = refuse 500 "could not create asset"

abbrev pub update_asset_failure : Error → Reply
update_asset_failure Error.asset_not_found = refuse 404 "asset not found"
update_asset_failure Error.asset_not_owned = refuse_with 403 Error.asset_not_owned
update_asset_failure Error.invalid_asset_data = refuse_with 400 Error.invalid_asset_data
update_asset_failure e = refuse 500 "could not update asset"

abbrev pub disable_asset_failure : Error → Reply
disable_asset_failure Error.asset_not_found = refuse 404 "asset not found"
disable_asset_failure Error.asset_not_owned = refuse_with 403 Error.asset_not_owned
disable_asset_failure e = refuse 500 "could not disable asset"

abbrev pub get_asset_failure : Error → Reply
get_asset_failure Error.asset_not_found = refuse 404 "asset not found"
get_asset_failure e = refuse 500 "could not retrieve asset"

abbrev pub list_assets_failure : Error → Reply
list_assets_failure e = refuse 500 "could not list assets"

abbrev pub asset_reply : ℕ → Asset → Reply
asset_reply status a = reply status (asset_body a)

abbrev pub update_bound : Bool → ℕ → Option UpdateAssetInput → ℕ → Handler Site
update_bound front_positive broker_id body asset_id s =
    bound body
      (λ input.
        respond_with (asset_reply 200) update_asset_failure
          (Service.update front_positive broker_id asset_id input))
      s

unfoldable pub create_asset_handler : Bool → Option ℕ → Option CreateAssetInput → Handler Site
create_asset_handler front_positive user body s =
    bound body
      (λ input.
        respond_with (asset_reply 201) create_asset_failure
          (Service.create front_positive (must_user_id user) input))
      s

unfoldable pub update_asset_handler :
    Bool → Option ℕ → Option ℤ → Option UpdateAssetInput → Handler Site
update_asset_handler front_positive user id body s =
    with_path_id id (update_bound front_positive (must_user_id user) body) s

unfoldable pub disable_asset_handler : Option ℕ → Option ℤ → Handler Site
disable_asset_handler user id s =
    with_path_id id
      (λ asset_id.
        respond_with (asset_reply 200) disable_asset_failure
          (Service.disable (must_user_id user) asset_id))
      s

unfoldable pub get_asset_handler : Option ℤ → Handler Site
get_asset_handler id s =
    with_path_id id
      (λ asset_id. respond_with (asset_reply 200) get_asset_failure (Service.get asset_id)) s

unfoldable pub list_assets_handler : (String → String → Bool) → Handler Site
list_assets_handler collates s =
    respond_with (λ as_. reply 200 (assets_body as_)) list_assets_failure (list_active collates) s
