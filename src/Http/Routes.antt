-- ===== src/Http/Routes.antt =====
-- The routes of cmd/api/main.go with their groups: what a request passes before its handler runs.
use Prim.Native.String.{String}
use text.Mathlib.Text.{◌==◌ as str_eq}
use multi_trade_platform.Base.{
  ℕ, ◌*◌, ◌^◌, Bool, false, List, [], ◌∷◌, Option, none, some, ◌==◌, if◌then◌else◌,
}
use multi_trade_platform.Base.Int.{ℤ}
use multi_trade_platform.Store.{World, M, Description}
use multi_trade_platform.Jobs.Expiry.{expire_stale_orders, count_or_zero}
use multi_trade_platform.Jobs.Reconciliation.{reconcile_wallets}
use multi_trade_platform.Jobs.Settlement.{verify_trade_settlements}
use multi_trade_platform.Wallet.{AmountInput}
use multi_trade_platform.Order.Service.{PlaceOrderInput}
use multi_trade_platform.Asset.Service.{Site, CreateAssetInput, UpdateAssetInput}
use multi_trade_platform.Auth.Token.{Crypto, JwtService}
use multi_trade_platform.Auth.Service.{RegisterRequest, LoginRequest}
use multi_trade_platform.Auth.Middleware.{Access, auth_middleware, rbac_middleware}
use multi_trade_platform.User.Role as Role
use multi_trade_platform.Limiter.{RateLimiter, Bucket, Verdict}
use multi_trade_platform.Limiter as Limiter
use multi_trade_platform.Http.{Handler, reply, refuse, counted_body}
use multi_trade_platform.Http.Wallets.{
  get_wallet_handler, deposit_handler, withdraw_handler, list_transactions_handler,
}
use multi_trade_platform.Http.Orders.{
  place_order_handler, cancel_order_handler, get_order_handler, list_orders_handler,
}
use multi_trade_platform.Http.Assets.{
  create_asset_handler, update_asset_handler, disable_asset_handler, get_asset_handler,
  list_assets_handler,
}
use multi_trade_platform.Http.Accounts.{
  register_handler, login_handler, refresh_handler, me_handler,
}
use multi_trade_platform.Http.Admin.{
  list_users_handler, update_user_status_handler, admin_health_handler, audit_logs_handler,
}

-- The requests of each group, with what the handler reads of the path, the query and the body.
pub data WalletRequest : Type 0 where
  wallet_read : WalletRequest
  wallet_deposit wallet_withdraw : Option AmountInput → WalletRequest
  wallet_transactions : ℕ → ℕ → WalletRequest

pub data OrderRequest : Type 0 where
  order_place : Option PlaceOrderInput → String → OrderRequest
  order_list : ℕ → ℕ → OrderRequest
  order_read order_cancel : Option ℤ → OrderRequest

pub data AssetRequest : Type 0 where
  asset_create : Option CreateAssetInput → AssetRequest
  asset_update : Option ℤ → Option UpdateAssetInput → AssetRequest
  asset_disable : Option ℤ → AssetRequest

pub data AdminRequest : Type 0 where
  users_list : String → String → ℕ → ℕ → AdminRequest
  user_status : Option ℤ → Option String → AdminRequest
  system_health : AdminRequest
  audit_list : Option (Option ℕ) → String → ℤ → ℤ → AdminRequest
  jobs_expire jobs_reconcile jobs_verify : AdminRequest

pub data Route : Type 0 where
  auth_register : Option RegisterRequest → Route
  auth_login : Option LoginRequest → Route
  auth_refresh : Option (List ℕ) → Route
  auth_me asset_list : Route
  asset_read : Option ℤ → Route
  wallet_group : WalletRequest → Route
  order_group : OrderRequest → Route
  asset_group : AssetRequest → Route
  admin_group : AdminRequest → Route

-- The key of a bucket: ByUserID and ByIP, after the same prefix for every limiter.
pub data BucketKey : Type 0 where
  by_user : ℕ → BucketKey
  by_ip : String → BucketKey

abbrev pub same_key : BucketKey → BucketKey → Bool
same_key (by_user a) (by_user b) = a == b
same_key (by_ip a) (by_ip b) = str_eq a b
same_key (by_user a) (by_ip b) = false
same_key (by_ip a) (by_user b) = false

pub record Server : Type 0 where
  pub site : Site
  pub buckets : BucketKey → Bucket

-- A request, but for its route.
pub record Arrival : Type 0 where
  pub authorization : List ℕ
  pub ip : String
  pub admission : Limiter.Request

-- What the request meets: the packages, the clock (with the time a day ago as `cutoff`), and what the
-- pings answer.
pub record Environment : Type 0 where
  pub crypto : Crypto
  pub jwt : JwtService
  pub now : ℕ
  pub later : ℕ
  pub salt : ℕ
  pub float64 : ℕ → ℕ
  pub collates : String → String → Bool
  pub front_positive : Bool
  pub cutoff : ℕ
  pub mentions : ℕ → Description → Bool
  pub database_up : Bool
  pub redis_up : Option Bool
  pub brokers_up : List Bool

abbrev minute : ℕ
minute = 60 * 10 ^ 9

abbrev pub login_limiter : RateLimiter
login_limiter = record { max_requests = 10; window = minute }

abbrev pub order_limiter : RateLimiter
order_limiter = record { max_requests = 60; window = minute }

abbrev pub wallet_limiter : RateLimiter
wallet_limiter = record { max_requests = 30; window = minute }

abbrev pub on_tables : Handler World → Handler Site
on_tables h s = let (replies, w) = h s.world in (replies, record s { world = w })

abbrev pub on_site : Handler Site → Handler Server
on_site h v = let (replies, s) = h v.site in (replies, record v { site = s })

abbrev pub put_bucket : BucketKey → Bucket → (BucketKey → Bucket) → BucketKey → Bucket
put_bucket key b buckets k = if same_key k key then b else buckets k

abbrev pub after_verdict : Verdict → Handler Server → Handler Server
after_verdict (Verdict.rejected n) h v = (refuse 429 "rate limit exceeded" ∷ [], v)
after_verdict (Verdict.admitted n) h v = h v
after_verdict Verdict.waved_through h v = h v

-- The limiter's middleware in front of a handler.
unfoldable pub limited :
    Environment → Arrival → RateLimiter → BucketKey → Handler Server → Handler Server
limited env a rl key h v =
    let (verdict, b) = Limiter.serve env.float64 rl a.admission (v.buckets key) in
    after_verdict verdict h (record v { buckets = put_bucket key b v.buckets })

-- The authentication in front of a handler, which gets the user and the role.
abbrev pub after_access : Access → (ℕ → String → Handler Server) → Handler Server
after_access Access.header_missing h v = (refuse 401 "authorization header is required" ∷ [], v)
after_access Access.header_malformed h v =
    (refuse 401 "authorization header must be in the form 'Bearer <token>'" ∷ [], v)
after_access Access.token_refused h v = (refuse 401 "invalid token" ∷ [], v)
after_access Access.token_out_of_date h v = (refuse 401 "token has expired" ∷ [], v)
after_access Access.access_token_required h v = (refuse 401 "access token required" ∷ [], v)
after_access (Access.authenticated user_id role) h v = h user_id role v

abbrev pub access_of : Environment → Arrival → Access
access_of env a = auth_middleware env.crypto env.jwt env.now a.authorization

unfoldable pub authenticated_only :
    Environment → Arrival → (ℕ → String → Handler Server) → Handler Server
authenticated_only env a h v = after_access (access_of env a) h v

-- RBACMiddleware in front of a handler, behind the authentication, which has set the role.
abbrev pub after_role : Option ℕ → Handler Server → Handler Server
after_role none h v = h v
after_role (some status) h v =
    (refuse status "you do not have permission to access this resource" ∷ [], v)

unfoldable pub role_only : String → String → Handler Server → Handler Server
role_only allowed role h v = after_role (rbac_middleware (allowed ∷ []) (some role)) h v

unfoldable pub wallet_handler : ℕ → WalletRequest → Handler World
wallet_handler user wallet_read = get_wallet_handler (some user)
wallet_handler user (wallet_deposit body) = deposit_handler (some user) body
wallet_handler user (wallet_withdraw body) = withdraw_handler (some user) body
wallet_handler user (wallet_transactions page size) =
    list_transactions_handler (some user) page size

unfoldable pub order_handler : ℕ → OrderRequest → Handler World
order_handler user (order_place body key) = place_order_handler (some user) body key
order_handler user (order_list page size) = list_orders_handler (some user) page size
order_handler user (order_read id) = get_order_handler (some user) id
order_handler user (order_cancel id) = cancel_order_handler (some user) id

unfoldable pub asset_handler : Environment → ℕ → AssetRequest → Handler Site
asset_handler env user (asset_create body) =
    create_asset_handler env.front_positive (some user) body
asset_handler env user (asset_update id body) =
    update_asset_handler env.front_positive (some user) id body
asset_handler env user (asset_disable id) = disable_asset_handler (some user) id

-- A job, and the number that it returns.
unfoldable pub counted_handler : M ℕ → Handler World
counted_handler m w = let (r, w') = m w in (reply 200 (counted_body (count_or_zero r)) ∷ [], w')

unfoldable pub admin_handler : Environment → ℕ → AdminRequest → Handler World
admin_handler env user (users_list role status page size) = list_users_handler role status page size
admin_handler env user (user_status id body) = update_user_status_handler (some user) id body
admin_handler env user system_health =
    admin_health_handler env.database_up env.redis_up env.brokers_up
admin_handler env user (audit_list id action page size) = audit_logs_handler id action page size
admin_handler env user jobs_expire = counted_handler (expire_stale_orders env.cutoff)
admin_handler env user jobs_reconcile = counted_handler reconcile_wallets
admin_handler env user jobs_verify = counted_handler (verify_trade_settlements env.mentions)

-- The routes of main.go.
unfoldable pub serve_route : Environment → Arrival → Route → Handler Server
serve_route env a (auth_register body) =
    on_site (on_tables (register_handler env.crypto env.jwt env.now env.later env.salt body))
serve_route env a (auth_login body) =
    limited env a login_limiter (by_ip a.ip)
      (on_site (on_tables (login_handler env.crypto env.jwt env.now env.later body)))
serve_route env a (auth_refresh body) =
    on_site (on_tables (refresh_handler env.crypto env.jwt env.now env.later body))
serve_route env a auth_me =
    authenticated_only env a λ user role. on_site (on_tables (me_handler (some user) (some role)))
serve_route env a asset_list =
    authenticated_only env a λ user role. on_site (list_assets_handler env.collates)
serve_route env a (asset_read id) =
    authenticated_only env a λ user role. on_site (get_asset_handler id)
serve_route env a (wallet_group r) = authenticated_only env a λ user role.
    limited env a wallet_limiter (by_user user) (on_site (on_tables (wallet_handler user r)))
serve_route env a (order_group r) = authenticated_only env a λ user role.
    role_only Role.trader role
      (limited env a order_limiter (by_user user) (on_site (on_tables (order_handler user r))))
serve_route env a (asset_group r) =
    authenticated_only env a
      λ user role. role_only Role.broker role (on_site (asset_handler env user r))
serve_route env a (admin_group r) =
    authenticated_only env a
      λ user role. role_only Role.admin role (on_site (on_tables (admin_handler env user r)))
