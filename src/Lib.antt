-- ===== src/Lib.antt =====
-- SCOS takes orders for one product, the SCOS Station P1 Pro, from warehouses around the world. An
-- order request is a quantity and a destination. The domain prices it (unit price and volume
-- discount), allocates the units from the nearest warehouses with stock, charges the shipping by
-- weight and distance, and refuses an order whose shipping costs more than 15% of the discounted
-- merchandise. Verification estimates a request against a snapshot; submission estimates it again
-- in a transaction that holds the locks on all warehouses, deduplicates by the client's submission
-- key, and saves the Order.
--
-- The parts, and the files of the repository that they model:
--
-- * Shared (packages/core/src/domain/shared): errors.ts is Shared/Errors (`Result`, the codes of
--   DomainError without their messages), money.ts and product.ts are Shared/Money
--   (Money.fromDecimal is `from_decimal`, plus is `add`, minus is `subtract`), quantity.ts and
--   destination.ts are Shared/Schemas.
-- * Pricing (packages/core/src/domain/pricing/pricing.ts): `discount_rate_for`, `price_merchandise`.
-- * Shipping (packages/core/src/domain/shipping): distance.ts is Shipping/Distance, allocation.ts is
--   Shipping/Allocation, shipping.ts is Shipping/Charge. The sort is by insertion, which is stable
--   like Array.prototype.sort.
-- * Ordering (packages/core/src/domain/ordering): order-request.ts, submission-key.ts,
--   order-number.ts, estimate.ts and order.ts are Request, Key, Number, Estimate and Order
--   (Order/Amounts has `restore_order` and Money.parse; Decimal/Digits writes what toFixed prints).
-- * Ordering/Submit (packages/core/src/application): submit-order.ts and verify-order.ts. An
--   asynchronous call is an `Action` on a state of everything outside; the ports of
--   packages/core/src/application/ports are records of actions. The retry loop is structural on the
--   attempts left.
-- * Persistence (packages/persistence/src): submission-errors.ts is Persistence/Failures; the
--   warehouse rows of submission-store.ts and inventory-reader.ts, the guarded deductions and the
--   transaction's options are Persistence/Stock, the rest of submission-store.ts is
--   Persistence/Store over the calls of the Prisma client in Persistence/Client, and records.ts is
--   Persistence/Records. The flag `locked` of a transaction is part of the state, a `Session`.
-- * Http (apps/api/src/http and endpoints): json.ts is Http/Json (`JSON_CONTENT_TYPE` as a matcher)
--   and, with endpoint-app.ts and both app.ts, Http/Endpoints; errors.ts, estimate.ts and
--   serializers.ts are Http/Bodies. A handler takes a request and the state outside to a response
--   and the state after it.
-- * Telemetry (apps/api/src/telemetry): log-record.ts is Telemetry/LogRecord, config.ts is
--   Telemetry/Config and Telemetry/Config/Headers.
--
-- What is not part of the repository is a parameter, with laws that state its documented behaviour:
-- decimal.js (`Decimals`, `IsExact`), JavaScript numbers and Math (`Floats`, `IsIeee`), the decimal
-- that a number prints as (`Numerals`, `IsNumeral`), zod (`Zod`, `IsZod`), the store of the port
-- (`SubmissionStore`, `IsTransactional`), the Prisma client with its database (`PrismaClient`,
-- `IsPrisma`), Prisma.Decimal, URL and decodeURIComponent. The parameters with laws have an instance
-- that meets them (Decimal/Exact, Js/Fixed, Numeral/Plain, Zod/Plain, the store in Tests/Orders and
-- the database in Tests/Database). A number that passed an integer check is read as a natural number
-- by `natural`; the sum of the stock is exact, as JavaScript's is below 2 ^ 53. A string is the list
-- of its UTF-16 code units. A store is seen through a `StoreView`: what is committed, the transactions
-- started, the stock and the keys that are taken. A failed transaction is only known to have committed
-- nothing if its error is a DomainError, a taken key or transient; after any other error, such as that
-- of a lost COMMIT, the work may have been committed. Of the errors that `$transaction` itself throws,
-- Persistence/Failures/Reasons lists those that pg, PostgreSQL and Prisma document as uncommitted.
--
-- Fuel: an amount is printed with 40 digits of fuel for its whole part, the precision of the
-- decimals; the parameters of a Content-Type are matched on the length of the text. The other loops
-- are structural.
--
-- Not modelled: error messages of the domain, Object.freeze, types that are erased (brands);
-- submissions that run at the same time, which the row locks serialise (the laws of the Prisma client
-- are those of one connection); the routing of Hono, the log of an unhandled error and the OpenAPI
-- metadata; the zod schemas of single telemetry variables, the exporters and decorators of
-- OpenTelemetry; the seeding and the commands of packages/persistence, the composition and entry
-- points of apps/api, tests, scripts and infrastructure.
pub mod Prelude
pub mod Decimal
pub mod Shared
pub mod Pricing
pub mod Js
pub mod Zod
pub mod Numeral
pub mod Shipping
pub mod Ordering
pub mod Persistence
pub mod Http
pub mod Telemetry
pub mod Tests
