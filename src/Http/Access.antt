-- ===== src/Http/Access.antt =====
-- main.go: who gets to the handlers behind the authentication.
use Prim.Native.String.{String}
use text.Mathlib.Text.{◌==◌ as str_eq}
use text.Mathlib.TextEquality.{eq_iff}
use multi_trade_platform.Base.{
  ℕ, ◌≡◌, ◌⊎◌, inl, inr, refl, arith, Bool, true, false, List, [], ◌∷◌, Option, none, some,
  Bool-cases,
}
use multi_trade_platform.Auth.Middleware.{Access, rbac_middleware}
use multi_trade_platform.Auth.Passed.{IsPassed, auth_middleware-ok}
use multi_trade_platform.User.Role as Role
use multi_trade_platform.Http.{Reply, Handler}
use multi_trade_platform.Http.Routes.{
  Route, auth_register, auth_login, auth_refresh, auth_me, asset_list, asset_read, wallet_group,
  order_group, asset_group, admin_group, Server, Arrival, Environment, serve_route, after_access,
  authenticated_only, access_of, role_only, after_role,
}

abbrev pub is_public : Route → Bool
is_public (auth_register body) = true
is_public (auth_login body) = true
is_public (auth_refresh body) = true
is_public r = false

-- The role that the group of a route asks for.
abbrev pub role_of_group : Route → Option String
role_of_group (order_group r) = some Role.trader
role_of_group (asset_group r) = some Role.broker
role_of_group (admin_group r) = some Role.admin
role_of_group r = none

-- One body with status 401 or 403 is written, and nothing else happens.
unfoldable pub IsTurnedAway : Server → List Reply × Server → Type 0
IsTurnedAway v r = (p : Reply) × (r ≡ (p ∷ [], v)) × ((p.status ≡ 401) ⊎ (p.status ≡ 403))

unfoldable pub HasRole : Option String → String → Type 0
HasRole allowed role = elim allowed as (λ _. Type 0) [ none ↦ Unit {0} | some x ↦ x ≡ role ]

-- The header has the scheme Bearer and a token that parses now to the claims of an access token, whose
-- role is the one that is asked for.
unfoldable pub IsAdmitted : Environment → Arrival → Option String → Type 0
IsAdmitted env a allowed =
    (user : ℕ) × (role : String) × IsPassed env.crypto env.jwt env.now a.authorization user role
    × HasRole allowed role

after_access_cases :
    (access : Access) (h : ℕ → String → Handler Server) (v : Server)
    → ((user : ℕ) × (role : String) × (access ≡ Access.authenticated user role))
      ⊎ IsTurnedAway v (after_access access h v)
unfolding IsTurnedAway
after_access_cases Access.header_missing h v = inr (_, refl, inl refl)
after_access_cases Access.header_malformed h v = inr (_, refl, inl refl)
after_access_cases Access.token_refused h v = inr (_, refl, inl refl)
after_access_cases Access.token_out_of_date h v = inr (_, refl, inl refl)
after_access_cases Access.access_token_required h v = inr (_, refl, inl refl)
after_access_cases (Access.authenticated user role) h v = inl (user, role, refl)

passed :
    (env : Environment) (a : Arrival) (user : ℕ) (role : String)
    → access_of env a ≡ Access.authenticated user role
    → IsPassed env.crypto env.jwt env.now a.authorization user role
passed env a user role same =
    auth_middleware-ok env.crypto env.jwt env.now a.authorization user role same

signed_in :
    (env : Environment) (a : Arrival) (h : ℕ → String → Handler Server) (v : Server)
    → IsAdmitted env a none ⊎ IsTurnedAway v (authenticated_only env a h v)
unfolding authenticated_only IsAdmitted HasRole
signed_in env a h v = elim (after_access_cases (access_of env a) h v) [
  | inl (user, role, same) ↦ inl (user, role, passed env a user role same, tt)
  | inr away ↦ inr away
]

rbac-cases : (x role : String) → (x ≡ role) ⊎ (rbac_middleware (x ∷ []) (some role) ≡ some 403)
unfolding rbac_middleware
rbac-cases x role = elim (Bool-cases (str_eq x role)) [
  | inl same ↦ inl ((eq_iff x role).0 same)
  | inr other ↦ inr (ground arith)
]

after_role_away :
    (o : Option ℕ) (h : Handler Server) (v : Server)
    → o ≡ some 403
    → IsTurnedAway v (after_role o h v)
unfolding IsTurnedAway
after_role_away none h v e = absurd (ground arith)
after_role_away (some n) h v e = (_, refl, inr (ground arith))

-- With the right token but another role.
role_cases :
    (env : Environment) (a : Arrival) (x : String) (h : ℕ → String → Handler Server) (v : Server)
    (access : Access)
    → access_of env a ≡ access
    → IsAdmitted env a (some x)
      ⊎ IsTurnedAway v (after_access access (λ user role. role_only x role (h user role)) v)
unfolding IsAdmitted HasRole role_only
role_cases env a x h v (Access.authenticated user role) e = elim (rbac-cases x role) [
  | inl allowed ↦ inl (user, role, passed env a user role e, allowed)
  | inr denied ↦ inr (after_role_away _ (h user role) v denied)
]
role_cases env a x h v Access.header_missing e = inr (unfold IsTurnedAway in (_, refl, inl refl))
role_cases env a x h v Access.header_malformed e = inr (unfold IsTurnedAway in (_, refl, inl refl))
role_cases env a x h v Access.token_refused e = inr (unfold IsTurnedAway in (_, refl, inl refl))
role_cases env a x h v Access.token_out_of_date e = inr (unfold IsTurnedAway in (_, refl, inl refl))
role_cases env a x h v Access.access_token_required e =
    inr (unfold IsTurnedAway in (_, refl, inl refl))

with_role :
    (env : Environment) (a : Arrival) (x : String) (h : ℕ → String → Handler Server) (v : Server)
    → IsAdmitted env a (some x)
      ⊎ IsTurnedAway v (authenticated_only env a (λ user role. role_only x role (h user role)) v)
unfolding authenticated_only
with_role env a x h v = role_cases env a x h v (access_of env a) refl

-- A route that is not public is served only for a request whose header has the scheme Bearer, in any
-- case, and a token that the JWT service parses now to the claims of an access token, of the role of the
-- route's group where it has one; any other request gets one body with status 401 or 403 and leaves
-- tables, cache and limiters as they were.
pub serve_route_admits :
    (env : Environment) (a : Arrival) (r : Route) (v : Server)
    → is_public r ≡ false
    → IsAdmitted env a (role_of_group r) ⊎ IsTurnedAway v (serve_route env a r v)
unfolding serve_route
serve_route_admits env a (auth_register body) v guarded = absurd (ground arith)
serve_route_admits env a (auth_login body) v guarded = absurd (ground arith)
serve_route_admits env a (auth_refresh body) v guarded = absurd (ground arith)
serve_route_admits env a auth_me v guarded = signed_in env a _ v
serve_route_admits env a asset_list v guarded = signed_in env a _ v
serve_route_admits env a (asset_read id) v guarded = signed_in env a _ v
serve_route_admits env a (wallet_group r) v guarded = signed_in env a _ v
serve_route_admits env a (order_group r) v guarded = with_role env a Role.trader _ v
serve_route_admits env a (asset_group r) v guarded = with_role env a Role.broker _ v
serve_route_admits env a (admin_group r) v guarded = with_role env a Role.admin _ v
