-- ===== src/Asset/Laws.antt =====
-- What disabling an asset has done, whichever way it ends.
use multi_trade_platform.Base.{◌≡◌, arith, ℕ, ok, find_row, some}
use multi_trade_platform.Store.{World, Asset, ◌>>=◌}
use multi_trade_platform.Store.Laws.{statement-ok, >>=-step, >>-step, fail_if-ok}
use multi_trade_platform.Order.Service.{has_asset_id, get_asset}
use multi_trade_platform.Asset.{disable_asset}

get_asset-ok :
    (id : ℕ) (w : World) (a : Asset) (w' : World)
    → get_asset id w ≡ (ok a, w')
    → find_row (has_asset_id id) w.db.assets ≡ some a
unfolding get_asset ◌>>=◌
get_asset-ok id w a w' e = let done = statement-ok _ w a w' e in ground arith

-- An asset is disabled only by its own broker.
pub disable_asset_owner :
    (broker_id asset_id : ℕ) (w : World) (a : Asset) (w' : World) (before : Asset)
    → find_row (has_asset_id asset_id) w.db.assets ≡ some before
    → disable_asset broker_id asset_id w ≡ (ok a, w')
    → before.broker_id ≡ broker_id
unfolding disable_asset
disable_asset_owner broker_id asset_id w a w' before found e = >>=-step _ _ e λ read w₁ e₁ k₁.
    let same = get_asset-ok asset_id w read w₁ e₁ in
    >>-step _ _ k₁ λ u₂ w₂ e₂ k₂. let (own, same₂) = fail_if-ok _ _ w₁ u₂ w₂ e₂ in ground arith
