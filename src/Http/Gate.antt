-- ===== src/Http/Gate.antt =====
-- main.go: what every request meets, whichever its route.
use Prim.Native.String.{String}
use multi_trade_platform.Base.{
  ℕ, ◌≤◌, ◌≡◌, refl, arith, Bool, true, false, Option, none, some, find_row,
}
use multi_trade_platform.Store.{World, Db}
use multi_trade_platform.Order.Repository.{has_id}
use multi_trade_platform.Order.Service.{has_asset_id}
use multi_trade_platform.User.{with_id as with_user}
use multi_trade_platform.User.Role as Role
use multi_trade_platform.Auth.Middleware.{Access}
use multi_trade_platform.Asset.Service.{Site}
use multi_trade_platform.Limiter.{Verdict, RateLimiter, Bucket}
use multi_trade_platform.Http.{Handler}
use multi_trade_platform.Http.Reading.{login-IsReading, refresh_tokens-IsReading}
use multi_trade_platform.Http.Accounts.{login_handler, refresh_handler, me_handler}
use multi_trade_platform.Http.Keeps.{Keeps, status_of, bound-Keeps, respond_with-Keeps_read}
use multi_trade_platform.Http.Refusals.{
  tables, wallet_handler-Keeps, order_handler-Keeps, admin_handler-Keeps,
}
use multi_trade_platform.Http.AssetRefusals.{
  site_tables, asset_handler-Keeps, get_asset_handler-Keeps, list_assets_handler-Keeps,
}
use multi_trade_platform.Http.Routes.{
  Route, auth_register, auth_login, auth_refresh, auth_me, asset_list, asset_read, wallet_group,
  order_group, asset_group, admin_group, Server, Arrival, Environment, BucketKey, serve_route,
  on_tables, on_site, limited, after_verdict, after_access, authenticated_only, access_of,
  role_only, after_role,
}

abbrev pub server_tables : Server → Db
server_tables v = v.site.world.db

-- The sequences start at 1.
pub record IsNumbered (db : Db) : Type 0 where
  pub orders : find_row (has_id 0) db.orders ≡ none
  pub assets : find_row (has_asset_id 0) db.assets ≡ none
  pub users : find_row (with_user 0) db.users ≡ none

module _ (h : Handler World) (v : Server) where
  lift-Keeps : Keeps tables h v.site.world → Keeps server_tables (on_site (on_tables h)) v
  unfolding Keeps
  lift-Keeps keeps = keeps

lift_site-Keeps :
    (h : Handler Site) (v : Server) → Keeps site_tables h v.site → Keeps server_tables (on_site h) v
unfolding Keeps
lift_site-Keeps h v keeps = keeps

module _ (h : Handler Server) where
  after_verdict-Keeps :
      (verdict : Verdict) (v : Server)
      → Keeps server_tables h v
      → Keeps server_tables (after_verdict verdict h) v
  unfolding Keeps
  after_verdict-Keeps (Verdict.rejected n) v keeps = λ refused. refl
  after_verdict-Keeps (Verdict.admitted n) v keeps = keeps
  after_verdict-Keeps Verdict.waved_through v keeps = keeps

  limited-Keeps :
      (env : Environment) (a : Arrival) (rl : RateLimiter) (key : BucketKey) (v : Server)
      → ((buckets : BucketKey → Bucket) → Keeps server_tables h (record v { buckets = buckets }))
      → Keeps server_tables (limited env a rl key h) v
  unfolding limited Keeps
  limited-Keeps env a rl key v keeps = unfold Keeps in after_verdict-Keeps _ _ (keeps _)

  after_role-Keeps :
      (status : Option ℕ) (v : Server)
      → Keeps server_tables h v
      → Keeps server_tables (after_role status h) v
  unfolding Keeps
  after_role-Keeps none v keeps = keeps
  after_role-Keeps (some status) v keeps = λ refused. refl

  role_only-Keeps :
      (allowed role : String) (v : Server)
      → Keeps server_tables h v
      → Keeps server_tables (role_only allowed role h) v
  unfolding role_only
  role_only-Keeps allowed role v keeps = after_role-Keeps _ v keeps

after_access-Keeps :
    (access : Access) (h : ℕ → String → Handler Server) (v : Server)
    → ((user : ℕ) (role : String) → Keeps server_tables (h user role) v)
    → Keeps server_tables (after_access access h) v
unfolding Keeps
after_access-Keeps Access.header_missing h v keeps = λ refused. refl
after_access-Keeps Access.header_malformed h v keeps = λ refused. refl
after_access-Keeps Access.token_refused h v keeps = λ refused. refl
after_access-Keeps Access.token_out_of_date h v keeps = λ refused. refl
after_access-Keeps Access.access_token_required h v keeps = λ refused. refl
after_access-Keeps (Access.authenticated user role) h v keeps = keeps user role

authenticated_only-Keeps :
    (env : Environment) (a : Arrival) (h : ℕ → String → Handler Server) (v : Server)
    → ((user : ℕ) (role : String) → Keeps server_tables (h user role) v)
    → Keeps server_tables (authenticated_only env a h) v
unfolding authenticated_only
authenticated_only-Keeps env a h v keeps = after_access-Keeps (access_of env a) h v keeps

abbrev pub is_registration : Route → Bool
is_registration (auth_register body) = true
is_registration r = false

serve_route-Keeps :
    (env : Environment) (a : Arrival) (r : Route) (v : Server)
    → IsNumbered v.site.world.db
    → is_registration r ≡ false
    → Keeps server_tables (serve_route env a r) v
unfolding serve_route login_handler refresh_handler me_handler
serve_route-Keeps env a (auth_register body) v numbered other = absurd (ground arith)
serve_route-Keeps env a (auth_login body) v numbered other = limited-Keeps _ env a _ _ v λ buckets.
    lift-Keeps _ _ (
      bound-Keeps tables body _ v.site.world λ input.
        respond_with-Keeps_read tables _ _ _ v.site.world
          (login-IsReading env.crypto env.jwt env.now env.later input v.site.world))
serve_route-Keeps env a (auth_refresh body) v numbered other = lift-Keeps _ v (
    bound-Keeps tables body _ v.site.world λ token.
      respond_with-Keeps_read tables _ _ _ v.site.world
        (refresh_tokens-IsReading env.crypto env.jwt env.now env.later token v.site.world))
serve_route-Keeps env a auth_me v numbered other =
    authenticated_only-Keeps env a _ v λ user role. unfold Keeps in λ refused. refl
serve_route-Keeps env a asset_list v numbered other =
    authenticated_only-Keeps env a _ v
      λ user role. lift_site-Keeps _ v (list_assets_handler-Keeps env.collates v.site)
serve_route-Keeps env a (asset_read id) v numbered other =
    authenticated_only-Keeps env a _ v
      λ user role. lift_site-Keeps _ v (get_asset_handler-Keeps id v.site)
serve_route-Keeps env a (wallet_group r) v numbered other =
    authenticated_only-Keeps env a _ v λ user role.
      limited-Keeps _ env a _ _ v
        λ buckets. lift-Keeps _ _ (wallet_handler-Keeps user r v.site.world)
serve_route-Keeps env a (order_group r) v numbered other =
    authenticated_only-Keeps env a _ v λ user role. role_only-Keeps _ Role.trader role v (
      limited-Keeps _ env a _ _ v
        λ buckets. lift-Keeps _ _ (order_handler-Keeps user r v.site.world numbered.orders))
serve_route-Keeps env a (asset_group r) v numbered other =
    authenticated_only-Keeps env a _ v λ user role.
      role_only-Keeps _ Role.broker role v
        (lift_site-Keeps _ v (asset_handler-Keeps env user r v.site numbered.assets))
serve_route-Keeps env a (admin_group r) v numbered other =
    authenticated_only-Keeps env a _ v λ user role.
      role_only-Keeps _ Role.admin role v
        (lift-Keeps _ v (admin_handler-Keeps env user r v.site.world numbered.users))

-- Where the client sees a status of 400 or more, from whichever layer, the tables are as they were: for
-- every route but the registration, and tables in which no order, asset or user has number 0.
pub serve_route_refused :
    (env : Environment) (a : Arrival) (r : Route) (v : Server)
    → IsNumbered v.site.world.db
    → is_registration r ≡ false
    → 400 ≤ status_of (serve_route env a r v).0
    → (serve_route env a r v).1.site.world.db ≡ v.site.world.db
unfolding Keeps
serve_route_refused env a r v numbered other refused =
    serve_route-Keeps env a r v numbered other refused
