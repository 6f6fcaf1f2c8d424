-- ===== src/Lib.antt =====
-- The payment core of the Stellar Payment API backend.
--
-- The backend takes payment sessions from merchants, watches the Stellar ledger for the payments,
-- and tells customers and merchants when they arrive. The parts modelled here:
--
-- Poller models backend/src/lib/horizon-poller.js, the ledger monitor. Poller.antt holds its data:
-- `Payment` is a row of `fetchPendingPayments`, `Claim` the guarded update, `Event` what the monitor
-- sends, and `Outside` everything that it calls (Horizon, the signature verifier, the database, the
-- clock, JavaScript's numbers). Poller/Check.antt is `checkPayment` and its helpers, one function for
-- each branch, as computations that return or throw (Effects.antt) on a `World`: the state of the
-- outside and the trace of events. Poller/Cycle.antt is the frame of `pollPendingPayments`: the flag
-- `_running`, the circuit breaker and the back-off, with a `Tick` for each firing of the timer.
-- Poller/Groups.antt is its grouping by recipient and asset.
-- Poller/RateLimiter.antt is the token bucket of `createLedgerMonitorRateLimiter`, in thousandths of a
-- token, with whole rates and bursts. Poller/Configs.antt is
-- `MerchantConfigCache`, `preloadMerchantConfigs` and `loadMerchantNotificationConfig`. `checkPayment`
-- meets the last as the call `load_merchant` of `Outside`.
--
-- Limiter models backend/src/lib/stellar/horizon-client/concurrency-limiter.js. Promises are numbers,
-- and the list `held` names the release closures whose `released` flag is false.
--
-- SignerCache models backend/src/lib/transaction-signer-cache.js. What Redis answers is an argument of
-- each operation. OrderedMap.antt is the JavaScript `Map` that the caches stand on: its entries in the
-- order of insertion.
--
-- Breaker models backend/src/lib/audit-circuit-breaker.js. `execute` meets an `Environment`: the ends
-- of the protected function, the clock, the jitter, and what other callers do to the breaker while it
-- waits.
--
-- SessionRules models backend/src/lib/payment-session-rules.js and the issuers of
-- backend/src/constants/assetConstants.js: Payloads.antt the sanitizing of a body, Issuers.antt and
-- Limits.antt the rules on issuers and amounts. A text that is sanitized is the list of its UTF-16
-- code units, with `normalize("NFC")` as a parameter. Texts that are only compared are strings.
--
-- SessionHealth models `SessionValidatorHealthMonitor` of backend/src/lib/payment-session-validator.js:
-- a ring of buckets of a fixed length. Worth.antt counts a whole history of evaluations, Window.antt
-- relates the ring to it, Rolling.antt the snapshot.
--
-- SessionValidator models `validatePaymentSession` of the same file, which applies SessionRules in
-- order and answers with the first failure; `evaluate` adds the outcome to the health window.
--
-- Metadata models backend/src/lib/sanitize-metadata.js. What the regular expressions of
-- `DANGEROUS_PATTERNS` leave of a text is a parameter.
--
-- Idempotency models backend/src/lib/idempotency.js: all POST requests with one key, as program
-- counters (`Pc`) beside the record in Redis, moved by events in any order (`act_all`). Requests are
-- numbered, and the number is the token. Turns.antt has what one turn changes, Replays.antt and
-- Exclusion.antt the theorems.
--
-- RedisRetry models backend/src/lib/idempotency-retry.js: `withIdempotencyRetry` meets an `Environment`
-- of attempts, clock and jitter.
--
-- ReadRetry models backend/src/lib/backoff-retry.js: the options clamped to their ceilings, and
-- `retrySupabaseRead` on an `Environment` of queries, the classes of errors and the jitter. Answers.antt
-- says which query a read answers with, Times.antt how long it sleeps.
--
-- WriterQueue models backend/src/lib/audit-writer-queue.js: the calls of `enqueue` are numbered, and
-- `step` is what a call, the end of a cache lookup or of a write, or the continuation of
-- `processQueue` does to the queue. Sums.antt and Still.antt hold lemmas, Slots.antt and History.antt
-- the two invariants with their runs, Recovery.antt the dead letters, Drains.antt the end of the loop.
-- Records.antt is the record cache, whose calls run one after the other; a read of Redis is an answer.
--
-- Trustlines models backend/src/lib/trustline-manager.js. Errors.antt classifies errors; Circuits.antt
-- has the circuit, the metrics and the dead letters of a context; Recovery.antt is
-- `executeWithRecovery`, whose calls run side by side, with an event for the begin of a call and one
-- for the end of an attempt. Operations.antt and Verifier.antt are `verifyTrustlineOperation` and
-- `verifyTrustlineSignature` with its cache, Verifier/Settles.antt its exceptions, Manager.antt puts the verifier under the recovery, and
-- Queries.antt builds the query of `findPaymentsByAsset`.
--
-- AssetIssuers models `AssetIssuerSignatureVerifier` of backend/src/lib/asset-issuer.js.
-- Operations.antt is `verifyAssetIssuerOperation`; Flights.antt is `verifyOperation`, whose calls run
-- side by side and share the verifications that are in flight.
--
-- RetrySlots models the slots within a process of
-- backend/src/lib/stellar/horizon-client/retry-coordinator.js, with a heap of the sets that the slots
-- close over. Tokens.antt has the tokens of the slots that are held, Grants.antt and Releases.antt
-- keep them in step with the heap, Limits.antt bounds them.
--
-- RelayLock models backend/src/lib/websocket-relay-lock.js: the table that a process uses without
-- Redis, `tryAcquireRelayLock`, `acquireRelayLock`, and the methods of a lease. Table.antt is about the
-- table, Waits.antt about the loop of `acquireRelayLock`, whose fuel is one attempt for each
-- millisecond of the wait and one more.
--
-- Recency.antt counts the entries of a map behind a key, for the caches that evict the oldest entry.
--
-- Base holds the shared names, the Boolean tests and list predicates; Effects.antt the computations
-- and their Hoare triples; Tests the runs at concrete inputs.
--
-- Bounds. `retry_from` counts the attempts after the current one: 2, as TRANSIENT_DB_RETRY_ATTEMPTS.
-- `execute_from` counts the retries to go, which starts at `max_retries`. Both loops of the source end
-- by the same counts, so no fuel is chosen. The loop of `withIdempotencyRetry` has no bound of its own
-- in its head: `retry_from` runs on one round of fuel for each retry allowed and one more, since a
-- round ends the loop or is followed by one of the retries. That of `retryWithBackoff` runs on one
-- round for each attempt allowed, as its head counts them. All other recursion is on lists or values.
-- Times, counts
-- and lengths are natural numbers; `now - then` stops at 0, where the source would get a negative
-- number from a clock that runs backwards, and both are below any positive time to live.
--
-- Not modelled: logs and metrics (but for the counter of checked payments), the timers that start the
-- monitor, a fetch of pending payments that throws instead of returning an error, network names
-- inherited from `Object.prototype`, and the parts of the backend outside these files.
pub mod Base
pub mod AssetIssuers
pub mod Breaker
pub mod Effects
pub mod Idempotency
pub mod RedisRetry
pub mod RelayLock
pub mod RetrySlots
pub mod ReadRetry
pub mod WriterQueue
pub mod SessionHealth
pub mod SessionValidator
pub mod Limiter
pub mod Metadata
pub mod OrderedMap
pub mod Poller
pub mod Recency
pub mod SessionRules
pub mod SignerCache
pub mod Trustlines
pub mod Tests
