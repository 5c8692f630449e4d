-- ===== src/Lib.antt =====
-- Vibe AI Router: a gateway that routes the AI requests of a firm's applications to local and cloud
-- models under the firm's policy.
--
-- A request is an envelope (src/gateway/envelope.ts). The policy engine (src/policy/engine.ts) picks a
-- model and the limits; the pipeline (src/gateway/pipeline.ts) scrubs the envelope and makes a route
-- to the firm's provider of the model's kind; the executor (src/resilience/executor.ts) tries the model
-- and then the fallback chain, each behind the provider's circuit breaker and load-shed guard, with
-- retries, and hands each hop the copy of the request that may leave the appliance.
--
-- Which file models which part:
--   Db.antt: the rows of db/schema.ts that routing reads.
--   Catalog.antt: `effectiveCapabilities` of src/catalog/service.ts.
--   Gateway/Errors.antt, Gateway/Envelope.antt: src/gateway/errors.ts, the types of
--     src/gateway/envelope.ts. A function that returns or throws is a `Result`.
--   Gateway/Route.antt: `routeForModel` of src/gateway/pipeline.ts, with the context that it shares
--     with the executor. The adapter and the call's settings in the route are left out.
--   Gateway/Auth.antt: `authenticateAppToken` and `stageAuth` of the same file.
--   Gateway/Stages.antt: `stageResolveTaskClass`, `stagePolicy`, `stageBudget`, `stageScrub` and
--     `stageRoute` of the same file. A stage that throws gives the error, with the context as it left
--     it where it had changed it.
--   Gateway/Json.antt, Gateway/Verify.antt, Gateway/Verify/Response.antt: src/gateway/verify.ts. JSON
--     is a type of its own, and a schema holds what the validator reads of it. A check takes the soft
--     findings so far and gives those after it and the violation, if there is one.
--     Gateway/Verify/Satisfaction.antt says what it means that a value satisfies a schema.
--   Protect/Pattern.antt, Protect/Scan.antt, Protect/Redact.antt, Protect/Envelope.antt:
--     src/protect/scrub.ts. A regular expression is a function that gives the length of its match.
--   Ledger/Writer.antt: src/ledger/writer.ts.
--   Adapters/Anthropic.antt, Adapters/OpenAi.antt: the answers and errors in
--     src/adapters/anthropic/translate.ts and src/adapters/openai-compat/translate.ts.
--   Gateway/Egress.antt, Gateway/Served.antt: the executor with the scrub stage in front of it, and
--     with the verification of responses in it.
--   Policy/Violation.antt, Policy/Select.antt, Policy/Limits.antt: `modelViolation`, `selectModel`,
--     `checkRole`, `clampToModel` and `applyLimits` of src/policy/engine.ts.
--   Policy/Engine.antt: the class `PolicyEngine` of the same file, with its caches.
--   Ledger/Cost.antt, Ledger/Budget.antt: src/ledger/cost.ts and src/ledger/budget.ts.
--   Ssrf.antt: src/lib/ssrf.ts.
--   Resilience/Breaker.antt, Limiter.antt, Shed.antt, Backoff.antt: the files of the same names in
--     src/resilience. The maps of these classes are association lists (Common/Dict.antt), and an
--     operation takes the object and returns it.
--   Resilience/Executor.antt: `executeResilient` of src/resilience/executor.ts, as a function on the
--     request's context, the shared breaker and guard, the number of awaits so far, and the log of
--     what was handed to adapters. Resilience/Executor/Stream.antt: `executeResilientStream`, which
--     gives what the consumer got too; Resilience/Executor/Clean.antt: what both keep.
--   Ops/Cache.antt: src/ops/cache.ts.
--   Tests: the theorems at concrete inputs, and runs of the code.
-- The modules below a part hold its theorems.
--
-- Concurrency. JavaScript runs one request at a time between two awaits. At each await of the executor
-- an arbitrary function changes the breaker and the guard, which stands for every interleaving with
-- other requests; clock, abort signal and adapter answer by the number of the await. The
-- breaker, limiter and cache are also studied under runs of calls, and the guard under a step relation.
--
-- Numbers. Times are milliseconds in natural numbers. The breaker's threshold is a fraction and compared
-- by products; the limiter's tokens are integers in 60000ths of a token, which makes the refill exact,
-- where the source has floating point. What is spent is a natural number of millionths of a cent.
--
-- Fuel. The retry loop recurses on the retries left, which the source bounds by MAX_RETRIES.
-- `classifyIp` recurses on the number of characters of the address and one: each recursion drops seven
-- characters. The chain recurses on the list of candidates.
--
-- Parameters: regular expressions (`pattern_test`), the URL parser, `isIP`, `toLowerCase` and the name
-- server (`Platform`), the database (`Database`), the lookups and the vault of routing (`RouteDeps`),
-- the adapters (`Outside`), `JSON.parse`, `JSON.stringify` and `Number.isInteger`, the
-- digest of a token, the prices of a model at a time (`pricing_at`), `toFixed` (`to_fixed`) and
-- the year and month of a time (`Calendar`).
--
-- Not modelled: the adapt stage with the response cache's keys and the terminal audit, the ledger's
-- aggregates, the vault, policy administration, the catalog's sync, the requests that the adapters
-- build, the HTTP layers, the console and the SDK. Of errors the message and of audit rows the
-- envelope data are left out; so are the names that every JavaScript object inherits.
--
pub mod Common
pub mod Resilience
pub mod Ops
pub mod Db
pub mod Gateway
pub mod Catalog
pub mod Policy
pub mod Ssrf
pub mod Protect
pub mod Ledger
pub mod Adapters
pub mod Tests
