-- ===== src/Lib.antt =====
-- Verification library for the Nayori platform: the quoting, settlement and reconciliation of
-- payments on the Stacks chain, the resources that are paid for, and the partners' OAuth clients.
--
-- A merchant's server asks the quote service for a signed quote, a payer pays by a transaction
-- that is bound to the quote, and the settlement service validates the payment, reserves the
-- quote, broadcasts the transaction once and records how that ended. A reconciliation worker
-- leases open settlements, asks the chain, and closes them: with a receipt and a delivery where
-- the transaction is deep enough, else as failed or dropped. The delivery is then claimed and
-- completed. All state is in the PostgreSQL tables, but for the in-memory windows of the rate
-- limiters.
--
-- Files and the code that they are about:
-- - Ledger: the payment tables and the operations of `PostgresDatabase` on them, src/database.ts:
--   Selecting (`SETTLEMENT_SELECT`), Quotes (insertIssuedQuote, findStoredQuote), Reserve
--   (reserveSettlement), Status (updateSettlementStatus, findSettlementForMerchant), Claims
--   (claimSettlementsForReconciliation), Reconciling (applyReconciliationResult), Deliveries
--   (claimDelivery, completeDelivery). Reach is any sequence of their transactions; Invariant,
--   History, Reservations, StatusLaws, Leases, ClaimLaws, DeliveryLaws and DeliveryClaims hold what is
--   proved of them.
-- - Settlement: src/settlement.ts. Public (publicSettlement, publicDelivery), Validation
--   (authenticate, validateQuote, validate, validateMpp, verify, verifyMpp), Settling
--   (settleValidated, settle, settleMpp), Serving (get, claimDelivery, completeDelivery); Checks,
--   Taken, Broadcasts, Replays and Access hold what is proved.
-- - Reconciler and Chain: src/reconciliation.ts (createReconciliationService and
--   createHiroSettlementChainSource).
-- - Broadcast: src/broadcast.ts. Quoting: src/quotes.ts. Signing: src/quote-signing.ts.
-- - Resource: src/paid-resource.ts, and MppResource: src/mpp-resource.ts, over the interface of
--   Facilitator: src/facilitator-client.ts. Migrations: src/migrations.ts.
-- - Partners: the tables of merchants, invitations, wallet challenges and OAuth clients, and the
--   methods of `PostgresDatabase` on them, src/database.ts, with the transaction that makes a
--   client in Consuming; Reach is any sequence of their statements; Laws, Upserts, Clients and
--   Refinement hold what is proved.
-- - Oauth: src/oauth.ts. Scopes (normalizeScopes), Digests (safeDigestEqual,
--   parseBasicAuthorization), Registering (issueChallenge, register), Issuing (issueToken), Tokens
--   (sign, verify, authenticate); Registered, Issued and Access hold what is proved.
--   ExternalOauth: src/external-oauth.ts.
-- - App: src/app.ts. The routes of the settlement service, Resources (`GET /v1`, `GET /mpp/v1`),
--   Partners (quotes, OAuth); Served fills the interface of Facilitator by those routes, and
--   Paying, Delivering and Recorded follow a report from the resource route to the tables.
-- - PublicPayments: src/public-payments.ts: the test of a row, Loading (load), Listing
--   (listPublicPayments of src/database.ts) and Snapshots (snapshot, with what is kept); Evidence,
--   Laws and Listed hold what is proved.
-- - Merchant: src/merchant.ts. Auth: src/auth.ts. Limiter: src/rate-limit.ts.
-- - Prelude: results, tables, maps, texts and JSON values that these share.
-- - Examples: sample tables and services, with the theorems applied to them.
--
-- How state and operations correspond: a table is a list of rows, the newest first; a transaction
-- is a function from the tables to a result that holds the new tables, and an error is its
-- ROLLBACK. The unique keys, references and CHECK constraints of migrations/001 to 005 that an
-- operation can break are tested where the code writes. A row lock makes an operation one atomic
-- step; where a service reads the tables and writes them later, the tables of the read and of the
-- write are two arguments; the rows that SKIP LOCKED passes over are an argument. A service call
-- is a function on its world (tables, rate-limiter windows, transactions sent), with each reading
-- of a clock, each random id and the transactions that other processes commit before each use of
-- the store as arguments.
--
-- Numbers: instants, heights and counts are natural numbers, in the unit that the code uses; none
-- of the arithmetic wraps. Recursion is structural throughout, so there is no fuel.
--
-- Parameters, for code that is not in the repository: SHA-256, the SDK's quotes, challenges,
-- verifiers and URL canonicalisation, the wallet signature check, JOSE, random texts, base64, date
-- printing, `fetch`, `JSON.parse`, `JSON.stringify`, `toLowerCase`, the zod schemas' parsers, and
-- `new URL`.
--
-- Not modelled: the private evidence tables and service, configuration, the MCP tools, static
-- documents, health checks, CORS, body limits and start-up, and error messages that follow from an
-- error's code. The lengths of columns and of some texts are left out where the code's own
-- patterns do not bound them. Faults of the database connection are not modelled either: a
-- transaction commits or its error is one that the code's own statements cause.
pub mod Prelude
pub mod Limiter
pub mod Ledger
pub mod Merchant
pub mod Broadcast
pub mod Chain
pub mod Reconciler
pub mod Auth
pub mod Signing
pub mod Settlement
pub mod Quoting
pub mod Migrations
pub mod Partners
pub mod Oauth
pub mod ExternalOauth
pub mod Facilitator
pub mod Resource
pub mod MppResource
pub mod App
pub mod PublicPayments
pub mod Examples
