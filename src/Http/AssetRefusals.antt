-- ===== src/Http/AssetRefusals.antt =====
-- The group of /assets: a handler that answers with a failure has changed no table.
use Prim.Native.String.{String}
use multi_trade_platform.Base.{
  ℕ, ◌≡◌, refl, ◌∙◌, arith, Bool, Option, none, some, Result, ok, err, find_row,
}
use multi_trade_platform.Base.Int.{ℤ}
use multi_trade_platform.Store.{World, Db, Error, M, Asset, ◌>>=◌}
use multi_trade_platform.Store.Reading.{IsReading, statement-IsReading}
use multi_trade_platform.Order.Service.{has_asset_id, get_asset}
use multi_trade_platform.Order.Service.Laws.{get_asset-IsReading}
use multi_trade_platform.Asset.Service as Service
use multi_trade_platform.Asset.{disable_asset}
use multi_trade_platform.Asset.Service.{
  Site, UpdateAssetInput, CreateAssetInput, after, active_assets, create_row, update_row, priced,
  priced_all, cache_price, renew_price, drop_price,
}
use multi_trade_platform.Asset.Cache.{Cache}
use multi_trade_platform.Asset.Ends.{
  Ends, Rewrites, disable_asset-Ends, update_row-Ends, create_row-Ends,
}
use multi_trade_platform.Http.Keeps.{
  Keeps, bound-Keeps, with_path_id-Keeps, respond_with-Keeps, respond_with-Keeps_read,
  respond_leaves,
}
use multi_trade_platform.Http.Assets.{
  create_asset_handler, update_asset_handler, disable_asset_handler, get_asset_handler,
  list_assets_handler, update_bound, asset_reply,
}
use multi_trade_platform.Http.Routes.{
  AssetRequest, asset_create, asset_update, asset_disable, asset_handler, Environment,
}

abbrev pub site_tables : Site → Db
site_tables s = s.world.db

module _ {A B : Type 0} (m : M A) (f : A → Cache → B × Cache) (s : Site) where
  after_leaves_go :
      (r : Result Error A) → (m s.world).0 ≡ r → (after m f s).1.world.db ≡ (m s.world).1.db
  unfolding after
  after_leaves_go (ok a) h = ground arith
  after_leaves_go (err e) h = ground arith

  after_leaves : (after m f s).1.world.db ≡ (m s.world).1.db
  after_leaves = after_leaves_go (m s.world).0 refl

  after_failed_go :
      (r : Result Error A) (e : Error)
      → (m s.world).0 ≡ r
      → (after m f s).0 ≡ err e
      → (m s.world).0 ≡ err e
  unfolding after
  after_failed_go (ok a) e h failed = absurd (ground arith)
  after_failed_go (err x) e h failed = ground arith

  -- Where an error of the statements leaves the tables, one of the whole call does.
  after_atomic :
      ((e : Error) → (m s.world).0 ≡ err e → (m s.world).1.db ≡ s.world.db)
      → (e : Error) → (after m f s).0 ≡ err e
      → (after m f s).1.world.db ≡ s.world.db
  after_atomic atomic e failed =
      after_leaves ∙ atomic e (after_failed_go (m s.world).0 e refl failed)

Ends-atomic :
    {A : Type 0} (Q : A → World → Type 0) (w : World) (r : Result Error A × World)
    → Ends Q w r
    → (e : Error) → r.0 ≡ err e
    → r.1.db ≡ w.db
unfolding Ends
Ends-atomic Q w (ok a, w') ends e failed = absurd (ground arith)
Ends-atomic Q w (err x, w') ends e failed = ends.0

-- A row that is not there is not rewritten.
Ends-absent :
    (id : ℕ) (w : World) (r : Result Error Asset × World)
    → find_row (has_asset_id id) w.db.assets ≡ none
    → Ends (Rewrites id w) w r
    → r.1.db ≡ w.db
unfolding Ends
Ends-absent id w (ok a, w') absent ends =
    let found : find_row (has_asset_id id) w.db.assets ≡ some ends.0 = ends.1 in
    absurd (ground arith)
Ends-absent id w (err x, w') absent ends = ends.0

update_bound_zero :
    (front_positive : Bool) (broker : ℕ) (body : Option UpdateAssetInput) (s : Site)
    → find_row (has_asset_id 0) s.world.db.assets ≡ none
    → (update_bound front_positive broker body 0 s).1.world.db ≡ s.world.db
unfolding Service.update
update_bound_zero front_positive broker none s absent = refl
update_bound_zero front_positive broker (some input) s absent =
    respond_leaves site_tables _ _ (Service.update front_positive broker 0 input) s
    ∙ after_leaves (update_row front_positive broker 0 input) renew_price s
    ∙ Ends-absent 0 s.world (update_row front_positive broker 0 input s.world) absent
        (update_row-Ends front_positive broker 0 input s.world)

update_bound-Keeps :
    (front_positive : Bool) (broker : ℕ) (body : Option UpdateAssetInput) (id : ℕ) (s : Site)
    → Keeps site_tables (update_bound front_positive broker body id) s
unfolding Service.update
update_bound-Keeps front_positive broker body id s = bound-Keeps site_tables body _ s λ input.
    respond_with-Keeps site_tables (asset_reply 200) _
      (Service.update front_positive broker id input) s (λ a. omega arith)
      (after_atomic (update_row front_positive broker id input) renew_price s (
        Ends-atomic _ s.world (update_row front_positive broker id input s.world)
          (update_row-Ends front_positive broker id input s.world)))

pub asset_handler-Keeps :
    (env : Environment) (user : ℕ) (r : AssetRequest) (s : Site)
    → find_row (has_asset_id 0) s.world.db.assets ≡ none
    → Keeps site_tables (asset_handler env user r) s
unfolding asset_handler create_asset_handler update_asset_handler disable_asset_handler
    Service.create Service.disable
asset_handler-Keeps env user (asset_create body) s absent =
    bound-Keeps site_tables body _ s λ input.
      respond_with-Keeps site_tables (asset_reply 201) _
        (Service.create env.front_positive user input) s (λ a. omega arith)
        (after_atomic (create_row env.front_positive user input) cache_price s (
          Ends-atomic _ s.world (create_row env.front_positive user input s.world)
            (create_row-Ends env.front_positive user input s.world)))
asset_handler-Keeps env user (asset_update id body) s absent =
    with_path_id-Keeps site_tables id (update_bound env.front_positive user body) s
      (update_bound_zero env.front_positive user body s absent)
      λ n. update_bound-Keeps env.front_positive user body n s
asset_handler-Keeps env user (asset_disable id) s absent =
    with_path_id-Keeps site_tables id _ s
      (respond_leaves site_tables _ _ (Service.disable user 0) s
        ∙ after_leaves (disable_asset user 0) drop_price s
        ∙ Ends-absent 0 s.world (disable_asset user 0 s.world) absent
            (disable_asset-Ends user 0 s.world))
      λ n.
        respond_with-Keeps site_tables (asset_reply 200) _ (Service.disable user n) s
          (λ a. omega arith)
          (after_atomic (disable_asset user n) drop_price s (
            Ends-atomic _ s.world (disable_asset user n s.world)
              (disable_asset-Ends user n s.world)))

-- The handlers that only read assets leave the tables, whatever they answer.
pub get_asset_handler-Keeps :
    (id : Option ℤ) (s : Site) → Keeps site_tables (get_asset_handler id) s
unfolding get_asset_handler Service.get
get_asset_handler-Keeps id s =
    with_path_id-Keeps site_tables id _ s
      (respond_leaves site_tables _ _ (Service.get 0) s
        ∙ after_leaves (get_asset 0) (priced 0) s
        ∙ get_asset-IsReading 0 s.world)
      λ n.
        respond_with-Keeps_read site_tables _ _ (Service.get n) s
          (after_leaves (get_asset n) (priced n) s ∙ get_asset-IsReading n s.world)

active_assets-IsReading : (collates : String → String → Bool) → IsReading (active_assets collates)
unfolding active_assets ◌>>=◌
active_assets-IsReading collates = statement-IsReading _ (λ w. refl)

pub list_assets_handler-Keeps :
    (collates : String → String → Bool) (s : Site)
    → Keeps site_tables (list_assets_handler collates) s
unfolding list_assets_handler Service.list_active Keeps
list_assets_handler-Keeps collates s = λ refused.
    respond_leaves site_tables _ _ (Service.list_active collates) s
    ∙ after_leaves (active_assets collates) priced_all s
    ∙ active_assets-IsReading collates s.world
