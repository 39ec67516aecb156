-- ===== src/Lib.antt =====
-- world-infra is a workspace of small Rust crates that several products share: stores for claims of
-- work and for refresh tokens, rate limits, vocabulary for the cycles of a world, and more. The crates
-- hardly call each other; each is a component that a product puts together with its own database. Keys of
-- idempotency name worlds, events carry such keys, and a WebSocket's first frame uses the parser of
-- bearer headers. This library models the parts that keep state or decide something.
--
-- The files and what they model:
-- - Prelude: the names and lists that all share, Boolean tests, results with an error type, and in
--   Prelude/Int signed integers with the saturating i64.
-- - Text: `str` and `String` as lists of code points, and trimming; its children Decimal (numbers written
--   in decimal and read back), Scan and Split (searching, splitting, joining), Label (the check of
--   labels that several crates make) and Utf8 (the bytes of a text).
-- - Map: `HashMap` as an association list; only its contents can be seen.
-- - Time: the expiry of a time to live in crates/idempotency-runtime-core/src/lib.rs and
--   crates/auth-refresh-core/src/lib.rs. An `Instant` is a number of nanoseconds, and `limit` is the
--   last one that the platform represents. The loop that halves the duration runs on fuel, one more
--   than the nanoseconds of the duration, and a duration that is halved reaches zero before that.
-- - IdempotencyRuntime: the in-memory claim store of crates/idempotency-runtime-core/src/lib.rs. Its
--   children: Keys (`IdempotencyNamespace::new`, `validate_part`, `namespaced_key`), Cleanup (the
--   schedule of `InMemoryState::maybe_cleanup`), Spec (the contract of a claim store, as a function
--   from keys to claims), Exclusive (histories of calls), Store (the five methods).
-- - RefreshStore: the in-memory refresh-token store of crates/auth-refresh-core/src/lib.rs, whose
--   Schema has the configuration, the namespaces and the sessions. SHA-256 is a parameter.
-- - RateLimit: limits, keys, the catalog of limits and the in-process fixed window of
--   crates/rate-limit-core/src/lib.rs.
--   Its children: Window (one check), Budget (histories), Retry, Cleanup, Backend (all branches),
--   Catalog and Overrides (`LimitCatalog`), Parse (`parse_limit_spec`), Subject (`subject_key`; the
--   digest is a parameter).
-- - Backoff: the loop that crates/world-cycle-core/src/lib.rs and crates/delivery-core/src/lib.rs both
--   have; it recurses on the number of attempts.
-- - WorldCycle: crates/world-cycle-core/src/lib.rs, leases, backoff and cutoffs; Errors has the
--   identifiers of workers, Phase, Followup and Runtime the statuses.
-- - Delivery: crates/delivery-core/src/lib.rs.
-- - WorldClock: crates/world-clock-core/src/lib.rs, on a time scale whose end and epoch are parameters.
-- - Operator: crates/operator-deadletter-core/src/lib.rs, the report of a pass.
-- - Notifications: versions in crates/notification-core/src/lib.rs, with Channels and Outcomes for its other
--   parts and Contexts and FailureReports about them; Lifecycle and Recurrence are about
--   crates/notification-lifecycle-core/src/lib.rs.
-- - TenantScope: crates/tenant-scope-sqlx/src/lib.rs. Literal has a reader of PostgreSQL's escape
--   strings, which joins literals that a newline separates and refuses escapes other than those of
--   quotes and backslashes; Names is about the names of settings.
-- - AuthPrimitives: crates/auth-primitives/src/lib.rs; Claims has the shapes of claims and the freshness
--   of sessions, Bearer the parser of bearer headers.
-- - WsAuth: crates/auth-ws-core/src/lib.rs; Frames is about the first frame, Limiter about control frames.
-- - WorldIdentity: crates/world-identity-core/src/lib.rs.
-- - IdempotencyKeys: crates/idempotency-core/src/lib.rs, with Segments and Keys.
-- - WorldEvent: crates/world-event-core/src/lib.rs, with its Builder.
-- - EventFanout: crates/event-fanout/src/lib.rs; Messages is about the cut of long messages.
-- - BillingRisk: crates/billing-risk-core/src/lib.rs; Redaction is about the redaction of snapshots.
-- - Upload: crates/upload-core/src/lib.rs; Traversal is about object keys as paths, Requests about whole
--   requests.
-- - SqlLint: crates/scoped-sql-lint/src/lib.rs; Comments has the lexer of a line, Scanning the scan of a
--   source. The lexer's loop runs on fuel, one for each character, since every round moves on by at
--   least one. Literals is about string literals, Nearby about the lines near a line, Findings about
--   the lines that are flagged.
-- - AuthDevice: crates/auth-device-core/src/lib.rs; Material is about the bytes that are hashed.
-- - AuthRecovery: crates/auth-recovery-core/src/lib.rs, with Shapes and Padding.
-- - AuthHttp: crates/auth-http-core/src/lib.rs; Origins has the trusted origins, OriginLaws is about
--   them, Cookies about the parts of a cookie header.
-- - HttpPrimitives: crates/http-primitives/src/lib.rs; Addresses has the networks, Origins the origins,
--   ClientIp the walk over forwarded headers and PublicBind the public addresses. Prefixes and
--   TrustedProxies are about networks, Chains about forwarded headers, Blocks and BlocksV6 about public
--   addresses. Addresses are numbers, and Prelude/Bits has the laws of `&` on them.
-- - Passwords: crates/auth-password-core/src/lib.rs; Breaches has the search in a file of hashes, whose loop
--   runs on fuel, one more than the file has bytes, and Policy the rest of the file checks and the
--   policy. Lines, Probes, Rounds and Search are about the search, LineEnds, ScannedLines, AcceptedLines
--   and LinearScan about the scan of all lines of the same file, and FileLookup about the lookup that
--   uses one or the other.
--
-- A method of a store reads the time, then takes the lock and does the rest under it. So a method is a
-- key computation and a step on the locked state, here named `locked_` and the method's name, and a
-- history of calls from many threads is a list of steps in the order of the locks, in which the times
-- may come in any order. A statement that needs the times in order says so. A poisoned lock is a text,
-- that of its error.
--
-- What comes from other crates is a parameter: SHA-1, SHA-256, HMAC and hexadecimal text, the decoding
-- of UTF-8, the JSON parser, the random source, the parsers of IP addresses, the headers of a request,
-- the execution of a query, the reading of a file. Values that a crate wraps in a type of their own
-- after a check are records here, and the check is a function that makes the record.
--
-- Not modelled: the stores in Redis, whose commands run on a server; the output of `Display` and
-- `Debug`; hooks, which only observe; serde and the other crates of the workspace.
mod Prelude
pub mod Text
pub mod Map
pub mod Time
pub mod IdempotencyRuntime
pub mod RefreshStore
pub mod RateLimit
pub mod Backoff
pub mod WorldCycle
pub mod Delivery
pub mod WorldClock
pub mod Operator
pub mod Notifications
pub mod TenantScope
pub mod AuthPrimitives
pub mod WsAuth
pub mod WorldIdentity
pub mod IdempotencyKeys
pub mod EventFanout
pub mod BillingRisk
pub mod Upload
pub mod SqlLint
pub mod AuthDevice
pub mod AuthRecovery
pub mod AuthHttp
pub mod HttpPrimitives
pub mod Passwords
pub mod WorldEvent
