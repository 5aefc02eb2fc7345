-- ===== src/Tests/Routes.antt =====
-- Requests at concrete tables: user 1, a trader, with an access token.
use multi_trade_platform.Base.{Bool, ◌≡◌, ◌⊎◌, refl, arith, [], ◌∷◌, ◌++◌, none, some}
use multi_trade_platform.Base.Int.{pos}
use multi_trade_platform.Store.{statement, run_tx, ◌>>=◌, ◌>>◌}
use multi_trade_platform.Order.Repository.{get_by_id_for_update}
use multi_trade_platform.Order.Service.{cancel_order, cancel_tx}
use multi_trade_platform.Auth.Middleware.{bearer, auth_middleware, split_at_space, rbac_middleware}
use multi_trade_platform.Auth.Token.{parse_token}
use multi_trade_platform.Limiter as Limiter
use multi_trade_platform.Limiter.{Link, no_bucket}
use multi_trade_platform.User.Role as Role
use multi_trade_platform.Http.{parse_id_param}
use multi_trade_platform.Http.Orders.{cancel_order_handler, get_order_handler}
use multi_trade_platform.Http.Routes.{
  Environment, Arrival, Server, Route, order_group, order_cancel, serve_route, limited,
  authenticated_only, role_only, order_handler,
}
use multi_trade_platform.Http.Gate.{IsNumbered, serve_route_refused}
use multi_trade_platform.Http.Access.{IsAdmitted, IsTurnedAway, serve_route_admits}
use multi_trade_platform.Http.LowIds.{refused_twice, order_handlers_low}
use multi_trade_platform.Tests.Data.{world}
use multi_trade_platform.Tests.Accounts.{crypto, jwt}

abbrev env : Environment
env = record {
  crypto = crypto;
  jwt = jwt;
  now = 10;
  later = 11;
  salt = 0;
  float64 = λ n. n;
  collates = λ s t. Bool.true;
  front_positive = Bool.false;
  cutoff = 0;
  mentions = λ n d. Bool.false;
  database_up = Bool.true;
  redis_up = none;
  brokers_up = [];
}

abbrev arrival : Arrival
arrival = record {
  authorization = bearer ++ b' ' ∷ 1 ∷ 0 ∷ 0 ∷ 900 ∷ [];
  ip = "10.0.0.1";
  admission = record { time = 10; link = Link.answered };
}

abbrev server : Server
server = record {
  site = record { world = world; cache = record { price = λ id. none; faults = [] } };
  buckets = λ key. no_bucket;
}

-- Order 22 is another user's.
abbrev foreign : Route
foreign = order_group (order_cancel (some (pos 22)))

server-IsNumbered : IsNumbered server.site.world.db
server-IsNumbered = record { orders = refl; assets = refl; users = refl }

serve_route_refused_example : (serve_route env arrival foreign server).1.site.world.db ≡ world.db
unfolding serve_route limited authenticated_only role_only order_handler cancel_order_handler
    parse_id_param cancel_order cancel_tx get_by_id_for_update run_tx statement ◌>>=◌ ◌>>◌
    auth_middleware split_at_space rbac_middleware parse_token Limiter.serve Limiter.exec
serve_route_refused_example =
    serve_route_refused env arrival foreign server server-IsNumbered refl (omega arith)

serve_route_admits_example :
    IsAdmitted env arrival (some Role.trader)
    ⊎ IsTurnedAway server (serve_route env arrival foreign server)
serve_route_admits_example = serve_route_admits env arrival foreign server refl

order_handlers_low_example :
    (cancel_order_handler (some 1) (some (pos 0)) world ≡ (refused_twice, world))
    × (get_order_handler (some 1) (some (pos 0)) world ≡ (refused_twice, world))
order_handlers_low_example = order_handlers_low 1 (pos 0) world refl refl refl
