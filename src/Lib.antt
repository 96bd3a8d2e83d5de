-- ===== src/Lib.antt =====
-- A model of the group buy market, and the theorems that make it correct.
--
-- The program sells a product to teams. A buyer locks an order, which opens a team or takes a place
-- of one; a payment settles the order, and the last payment forms the team; a refund closes an order
-- and gives the place back. Each of these is a rule chain, then one database transaction, and a
-- callback task that is delivered until it succeeds. A counter in Redis guards the places of a team
-- before the database does. Before an order is locked, the activity context tries the product: it
-- finds the running activity and its discount, prices the product, and tests the crowd of the buyer.
-- Timers refund orders that wait too long, a message queue brings recovered places back to the
-- counter, and settings reach all instances over a channel.
--
-- The files and the code that they model:
--   * Types: response codes, statuses and business exceptions (internal/types), and how a Go call
--     ends: a value, an error or a panic.
--   * Trade: internal/domain/trade/model. Entities holds the structs and aggregates, Notify the state
--     machine of a callback task (valobj/notify_task_status.go), Refund.Types the choice of a refund
--     (valobj/refund_type.go), StockKey the Redis keys and the decimal printer of
--     service/lock/factory/lock_context.go.
--   * Store: the rows of internal/infrastructure/dao/po/models.go, the world (tables, Redis keys,
--     schedule of failures, started callbacks), calls on it and how to reason about them. Only names
--     the one row that passes a test, with the rows before and after it.
--   * Repository: internal/infrastructure/repository/trade_repository.go, a module for each group of
--     methods: Queries (Reads holds what they answer), Lock (LockMarketPayOrder), Settle (SettlementMarketPayOrder), Refund
--     (Unpaid2Refund, Paid2Refund, PaidTeam2Refund, doRefund), Tasks, Stock (the occupation script
--     and the recoveries), Text (randomNumeric, isDuplicate, contains).
--   * Design.Chain: internal/design/chain/logic_handler.go.
--   * Service: internal/domain/trade/service. Lock, Settlement, Refund and Task each hold a rule chain
--     and the service that runs it (LockMarketPayOrder, SettlementMarketPayOrder, RefundOrder,
--     ExecNotifyJob), and have children that prove what the service keeps and checks.
--     Reach joins them: every world that the services reach from an empty market.
--   * Activity: internal/domain/activity with internal/infrastructure/repository/
--     activity_repository.go. Types, Visibility (the tag scope), Decimals (the amounts), Discount (the
--     four plans and their registry), Repository.Crowd (activities, products, crowds),
--     Repository.Details (the teams of the index page), Trial (the nodes of service/trial/node), Index
--     (service/index_service.go).
--   * Tag: internal/domain/tag and internal/infrastructure/repository/tag_repository.go, the batch job
--     that fills a crowd.
--   * App: internal/application with the requests and responses of internal/api. App holds settlement
--     and refund, App.Lock the lock request, App.IndexPage the index page, App.Answer the envelope.
--   * Trigger: internal/trigger. Job the two timers, Listener the refund queue with the consumer of
--     internal/infrastructure/mq/rabbitmq.go, RateLimit the limit by user, Http the controllers.
--   * Acl: internal/infrastructure/acl/trade_notify_acl.go, the port that delivers a callback under a
--     lock of Redis.
--   * Dcc: internal/infrastructure/dcc/dcc_service.go, the settings and their tests;
--     Dcc.Broadcast their way to other instances.
--   * System: every entry point of the program over the tables (Requests, Crowds, Deliveries, Messages,
--     Pages), and Reach, the worlds that they reach: one whole entry point after another, with the
--     single transactions of requests that run at the same time in between.
--   * Wiring: the configuration (internal/app/config.go), the client of the broker (internal/
--     infrastructure/mq/rabbitmq.go), the topics that internal/app/wire.go
--     gives to both, and Restore, the whole way of a refund's callback.
--   * Consistency: the counters of the team rows against the order rows, through every transaction.
--   * Prelude: shared library names, Boolean tests, integers, texts and lists. Scenarios: a small
--     market at which the theorems are applied.
--
-- How the code corresponds. A method is a function from the world to its result and the world after
-- it; `do` blocks follow the order of the Go statements, `require` is an early return with an error,
-- `non_nil` a pointer that the code reads without a check, and `transaction` undoes the tables after
-- an error. `World.faults` says of each statement, commit or Redis command in turn whether it fails
-- and with which message, so a theorem about any world covers every failure at every point. The
-- clock and the random draws are arguments. A goroutine of `safego.Go` is added to `World.jobs`; its
-- own run is the step `callback_run` of System.Reach.
--
-- Bounds. The decimal printer runs on fuel: its buffer has 20 bytes, the fuel is 20, and an int64 has
-- at most 19 digits. The exclusive or of the FNV hashes runs over their 32 or 64 bits. All other
-- recursions follow a list.
--
-- What is taken for granted. A transaction is one step: no other statement runs between its own, as
-- under row locks and unique keys, and the Lua script and each Redis command are atomic. Keys of
-- Redis do not expire. Texts are compared exactly, which MySQL does only under a binary collation.
-- Counters do not overflow. The JSON of a callback or message is kept as the object that it encodes.
-- The port of the task service, the HTTP client and the publisher behind it, the channel black list of
-- the settlement, the decimal arithmetic, the token bucket, the semaphore of the trial and the shuffle
-- of the index page are parameters; of the decimals some theorems use the laws of `IsOrdered`. The
-- broker puts a message that is refused back to its place, and the match of a routing key with a
-- binding is a parameter.
--
-- Not modelled: the timers that start a run, routing and the binding of requests, log shipping,
-- tracing, metrics, connections and the construction of the services, which are calls of third-party
-- libraries; internal/design/tree, which nothing uses; the float64 rounding of the countdown of a
-- team.
mod Prelude
pub mod Types
pub mod Trade
pub mod Store
pub mod Repository
pub mod Design
pub mod Service
pub mod Dcc
pub mod Activity
pub mod Tag
pub mod App
pub mod Trigger
pub mod System
pub mod Wiring
pub mod Acl
pub mod Scenarios
pub mod Consistency
