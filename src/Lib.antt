-- ===== src/Lib.antt =====
-- Verification of the MultiTrade platform: exact amounts, wallets, orders and the matching engine on
-- the tables that they share, who may use them, and the hub that sends messages to the clients.
--
-- The parts and their files:
--   Decimal          pkg/decimal/decimal.go. Decimal/BigFloat models math/big.Float as the code uses it:
--                    a number is a sign, a mantissa and a power of two; every operation rounds to
--                    nearest even at its precision; comparison is exact; %.8f prints the nearest
--                    number of 10^-8. Decimal/Rounding, Exact, Product, Sign and Amount are its laws.
--   Store            the database behind the repositories: rows (the model.go files of internal/),
--                    NUMERIC(20, 8) columns as counts of 10^-8, statements, transactions (`run_tx` is
--                    runTx of the services). A session runs one statement after another on the
--                    tables; a schedule says which statements the database fails to execute.
--   Wallet           internal/wallet/repository and internal/wallet/service.
--   Order            internal/order/repository, and internal/order/service in Order/Service.
--   Portfolio, Trade internal/portfolio and internal/trade, repository and service.
--   Matching         internal/matchingengine: Matcher is matcher.go, Executor is executor.go,
--                    Engine is engine.go; Book, Progress, Termination and Queue are about books
--                    of whole orders. Executor/Branches is executeTrade with each of its
--                    rollbacks, and Prices with what it writes to the cache.
--   Asset            internal/asset: repository and service, with the price cache of
--                    internal/redis/cache.go.
--   Jobs, Paging     order_expiry.go, reconciliation.go and settlement.go of internal/cronjobs;
--                    pkg/pagination.
--   Ledger           wallets, engine and reconciliation together: what keeps the balances explained
--                    by the transactions, and the trades by payments.
--   User, Audit      internal/user/repository and internal/audit/repository.
--   Auth             pkg/jwt, pkg/password (Token), internal/auth/service (Service), auth.go and rbac.go
--                    of internal/middleware (Middleware).
--   Admin            internal/admin/service.
--   Hub              internal/websocket: Topics is the map from topics to clients, Run the events of
--                    hub.go and client.go and the states that they lead to.
--   Limiter          ratelimit.go of internal/middleware, over the sorted set of a key.
--   Kafka            events.go of internal/kafka, and the audit and notification consumers of
--                    consumer.go.
--   Migrations       RunMigrations of internal/database/database.go.
--   Http             the handlers of internal/order, wallet, asset, auth and admin, and in Routes the
--                    routes of cmd/api/main.go with their middlewares and limiters.
--   Tests            the theorems at concrete tables.
--
-- How they interact: the order service checks wallet and holding and stores the order; the engine
-- chooses a candidate among the stored orders and executes a trade, one transaction that locks both
-- orders, fills them, moves the cost between the wallets and the quantity between the holdings. A row
-- that a transaction has locked is changed by nothing else until it ends, so a transaction is a
-- sequence of statements on the tables; COMMIT may fail, and then nothing of it stays.
--
-- Register uses the wallets; Login and RefreshTokens make the tokens that the middleware reads; an
-- administrator's change of a status is what Login looks at. Third-party code is a parameter: `Crypto`
-- stands for the JWT and bcrypt packages and `IsCrypto` for what they document, with a concrete
-- instance in Tests/Accounts. The hub is on its own: each event is one step, since the loop holds the
-- lock from its beginning to its end.
--
-- Correspondence: an operation has the name of its method in snake_case (executeTrade is
-- `execute_trade`), its guards in the same order, and an error for each early return. A method that
-- the source writes as one function with a transaction inside is split at the transaction
-- (`deposit_tx`, `withdraw_tx`, `cancel_tx`, `trade_tx`).
--
-- Bounds: amounts are below 10^20 units, as the columns hold (`numeric_limit`). 128 bits hold such
-- amounts and their sums exactly in the sense that matters: they are printed back without error
-- (`Fits`). The wallet service has 64 bits, so its theorems ask that the balance fits those. The
-- engine's loop runs on fuel, since the source bounds its rounds by nothing; Matching/Termination,
-- Matching/Queue and Matching/Rounds are about how much of it is enough. All other recursion is on lists. A client's
-- channel and the hub's queue of clients that leave hold 256 entries each.
--
-- A request is what the binding, ParseInt and the query make of it; a response is the list of
-- what is written to it, a status with a body or, after a panic, a status alone; the client sees the
-- first status.
--
-- Redis is a map of prices for the asset service, each call of which may fail, and a sorted set of
-- times for the rate limiter, whose pipeline is run as a whole or not at all. A message of Kafka is what
-- json.Unmarshal makes of it.
--
-- Not modelled: the scheduler and its health job, SQL scripts, the analytics queries with their handlers
-- and their consumer, the middlewares that only log and count, and the events that the services send
-- after a transaction, which change no table. Foreign keys are modelled for the audit log only. The
-- exponent range of math/big and the exponent notation of its texts are left out: columns never have
-- either. Columns on which nothing decides (currency, names, updated_at) are left out.
pub mod Base
pub mod Decimal
pub mod Store
pub mod Wallet
pub mod Order
pub mod Portfolio
pub mod Trade
pub mod Asset
pub mod Matching
pub mod Jobs
pub mod Ledger
pub mod User
pub mod Auth
pub mod Audit
pub mod Admin
pub mod Http
pub mod Hub
pub mod Limiter
pub mod Kafka
pub mod Migrations
pub mod Paging
pub mod Tests
