-- ===== src/Lib.antt =====
-- A verification of the marketplace backend (backend/, Go).
--
-- The backend is a set of services, each with its own PostgreSQL schema, which call each other and
-- exchange events. Four of them that carry money, points and stock are modelled, with the orders as
-- far as their payment and cancellation go, and the roles and API tokens of the auth service.
--
-- The loyalty service (backend/services/loyalty/internal) keeps a points account for each buyer,
-- an append-only ledger, and reservations of points during a checkout.
--   * Loyalty/Domain: domain/ledger.go, and the configuration of app/loyalty_service.go.
--   * Loyalty/Store: the statements of adapter/postgres on the tables of
--     infra/db/migrations/loyalty, whose CHECK and UNIQUE constraints fail a statement.
--   * Loyalty/Earn, Reserve, Commit, Cancel, Buckets, Expire: the operations of
--     app/loyalty_service.go, one function for the database transaction (`..._tx`) and one for the
--     whole call. Loyalty/Service has the answers and the events.
--   * Loyalty/Invariant, Keeps, History: the books of a buyer, which each call keeps.
--   * Loyalty/Buckets/Sums, Buckets/Ledger, Blocked: the expiration pass and its own check.
--   * Loyalty/Replay: an order that is awarded twice.
-- A transaction (Base/Tx, for backend/pkg/database/tx_context.go) is a function from the tables to
-- an error or an answer and new tables; an error leaves the tables as they were. Row locks order
-- the transactions on one account, so that a history is a list of calls. Fresh uuids, the time of
-- the clock and the choice of rows that SKIP LOCKED makes are arguments.
--
-- The coupon service (backend/services/coupon/internal) keeps coupons with a usage count, holds a
-- seat of a coupon during a checkout, and redeems and refunds it.
--   * Coupon/Domain: domain/coupon.go. Coupon/Store and Coupon/Redemptions: the statements of
--     adapter/postgres on the tables of infra/db/migrations/coupon.
--   * Coupon/Reserve, Refund, Admin: the operations of app/coupon_service.go.
--   * Coupon/Discount: the amount of a discount. Coupon/Limit: the limit at a reservation.
--     Coupon/Rules, Reads: what calls do to the tables in general. Coupon/Unrefunded, Unread: refunds
--     of rows that the driver cannot read.
--   * Coupon/Seats and its modules: the usage count against the rows that use a coupon, statement
--     by statement, call by call, and over a history of calls.
-- The trimming and comparing of texts, whether the driver reads NULL into a string, and whether a
-- transaction can be committed after a failed statement are the parameter Platform.
--
-- The inventory service (backend/services/inventory/internal) counts the units of a SKU that are
-- available and held. Inventory/Store has the statements of
-- adapter/postgres/inventory_repo.go, Inventory/Service the operations of
-- app/inventory_service.go, Inventory/Counts and Inventory/Conserved what they do to the counts,
-- and Inventory/Redelivery a cancellation that is delivered twice. Whether the database takes the
-- row of a stock movement is a parameter, for its failure is only logged.
--
-- The order service (backend/services/order/internal) splits a discount over the orders of a cart:
-- Order/Discount has domain/discount.go on int64, which wraps around, Order/Discount/Exact the
-- same on amounts that do not overflow, and Order/Discount/Total and Order/Discount/Lost what the
-- shares add up to.
--
-- The order service also cancels orders on a buyer's request, a seller's approval or an admin's
-- order, with calls of Stripe between what an approval reads and what it writes.
--   * Order/Cancellation/Domain: internal/domain/order.go and internal/cancellation/domain.go.
--     Order/Cancellation/Store: internal/cancellation/repository.go, and SetPaid, UpdateStatus and
--     ListByOrderID of internal/adapter/postgres.
--   * Order/Cancellation/Service: internal/cancellation/service.go and events.go, UpdateOrderStatus
--     of internal/app/order_service.go, and internal/adapter/pubsub/shipping_subscriber.go. The two
--     parts of an approval are two functions; the answers of Stripe are a parameter of the first.
--   * Order/Cancellation/Steps, Steps/Kept: interleaved calls, in which the end of any approval can
--     come at any time. Writes, Lookups: the tables after a statement. Invariants, Approval,
--     Undisturbed: what the calls do.
--
-- The auth service (backend/services/auth/internal) keeps the sellers, the users of a seller with
-- their roles, the platform admins with theirs, and an audit log of the changes.
--   * Auth/Domain: domain. Auth/Store: the statements of adapter/postgres on sellers, users and the
--     log, on the tables of infra/db/migrations/auth. Base/Rows, Base/Lookups: rows of a table in
--     general, with unique columns.
--   * Auth/Team, Auth/Admins, Auth/Identity: app/rbac.go and app/identity.go, where the admins come
--     with their statements.
--   * Auth/Edits: what a call may do to the tables, by itself. Auth/Calls, Auth/AdminCalls,
--     Auth/History: that the calls do this.
--   * Auth/Sound, Auth/Owners: unique columns, owners and super_admins. Auth/Audit, Auth/AuditUsers:
--     the audit log.
--   * Auth/Tokens and its modules: app/credential.go, adapter/postgres/api_token_repo.go and
--     domain/api_token.go, where texts are lists of bytes. Trimming and SHA-256 are parameters, and
--     what `rand.Read` answers each time is an argument. Draws is about the generator, Dead and
--     Revoked follow the rows of a revoked token.
-- The calls come one after another; GetByID, which reads outside the transaction of its caller,
-- reads the same tables then.
--
-- The order service handles the webhooks of a payment, which Stripe delivers again until one succeeds.
--   * Order/Payment/Store, Order/Payment/Handler: HandlePaymentSuccess of
--     internal/app/order_service.go and its statements, on the tables of the cancellation. The
--     answers of Stripe, of the coupon and loyalty services and of the broker, and whether the
--     database takes the writes from the transfer on, are a parameter. The
--     loop over the orders is a function of the orders that were read before it.
--   * Order/Payment/Keeps, Once, Skipped, Announced, Published, Stale: what deliveries do, also with
--     steps of cancellations between them.
--
-- Base has the shared names, the integers and int64 arithmetic. The columns are BIGINT, INT or
-- integers in their range, and a write out of range is an error. No definition takes fuel: the
-- loops are over lists. Tests has concrete runs.
--
-- Not modelled: failures of the database (but for the writes of the payment webhook), Redis,
-- Pub/Sub, Stripe and Auth0, which are third-party code; the HTTP and gRPC handlers; paged reads; the
-- checkout of the order service; the stamps and notes that no code reads; and the services for
-- carts, catalog, search, shipping, reviews, inquiries, subscriptions, notifications and the gateway.
pub mod Base
pub mod Loyalty
pub mod Order
pub mod Inventory
pub mod Coupon
pub mod Auth
pub mod Tests
