-- ===== src/Lib.antt =====
-- FalseRoute: the decisions and the limits that a deception platform must not get wrong.
--
-- An intrusion event reaches the worker, which asks a language model for an analysis. The model only
-- advises: `evaluateAutonomousPolicy` decides which containment calls are made, from the catalog of
-- scenarios, and the tool gateway asks `evaluateToolPolicy` again. Each model call, each tool operation
-- and each dollar is reserved first in the budget table, and settled or expired afterwards. A provider
-- call is claimed first as an intent, and what it creates is held by a lease, which a cleanup sweep or an
-- emergency release ends. The API
-- limits requests by a token bucket for each client, and the worker limits the concurrent calls of the
-- provider and classifies its errors.
--
-- Files and sources:
-- Prelude: shared names, Boolean tests on the native numbers, table operations on lists, texts as code
--   points, and results with errors.
-- Budget/Store: the table and the reads that the operations of
--   packages/database/src/repositories/budget-repository.ts share; Budget/Reserve is `reserveBudget`,
--   Budget/Slot `acquireEventAttemptSlot`, Budget/Settle `consumeBudget`, `releaseBudget`,
--   `reconcileBudgetReservation` and `recordGeminiAttemptOutcome`, Budget/Expiry
--   `reconcileExpiredReservations` and `getBudgetStatus`; Budget/Ledger lets their writes follow one
--   another in any order. The modules below them hold the proofs.
-- Leases/Store, Leases/Cleanup and Leases/Sweeps: packages/database/src/repositories/lease-repository.ts,
--   whose three tables share one row type. Leases/Counts:
--   packages/database/src/repositories/unsettled-leases.ts. Leases/Emergency and Leases/Settlement:
--   packages/database/src/repositories/emergency-release-repository.ts, the claim of a release, its
--   settlement and its completion. Leases/History lets all their operations follow one another in any order; Leases/Fencing
--   and the modules below hold the proofs.
-- Gemini/Gate: apps/worker/src/services/gemini-budget-service.ts, a client of Budget/Slot and
--   Budget/Settle.
-- Workflow: packages/database/src/repositories/autonomous-workflow-repository.ts. Workflow/Intents is
--   `claimProviderIntent`, Workflow/Status `updateProviderIntentStatus`, and Workflow/Register the
--   register that they implement; Workflow/Operations is `reserveToolOperation`,
--   `updateToolOperationStage` and `recordIngestionReceipt`, Workflow/Ambiguous
--   `settleAmbiguousToolReservation`, and Workflow/DeadLetters the dead letters and their replays.
-- Scenario, Scenario/Catalog, Scenario/Ownership, Scenario/Payload: packages/contracts/src/scenario.ts.
-- Policy/Tools: apps/worker/src/tools/tool-policy.ts. Policy/Canonical, Policy/Autonomous and
--   Policy/Plans: apps/worker/src/domain/autonomous-policy.ts, by its functions. Policy/Deception:
--   apps/worker/src/domain/policy-engine.ts.
-- Limits/TokenBucket: apps/api/src/middleware/rate-limit.ts and apps/api/src/config/rate-limits.ts.
--   Limits/Concurrency: apps/worker/src/adapters/concurrency-limiter.ts.
-- Provider/Classifier: apps/worker/src/adapters/error-classifier.ts. Provider/Retry:
--   apps/worker/src/adapters/retry-policy.ts and the loop of attempts of
--   apps/worker/src/adapters/gemini-adapter.ts.
-- Examples: the theorems at concrete inputs.
--
-- Correspondence: a table is the list of its rows in the order of insertion, and an operation takes it
-- and returns it with its answer, or the error that it throws. The database holds an advisory lock for
-- the length of `reserveBudget` and of `acquireEventAttemptSlot`, which are one step each; a settlement
-- is a read and a write that are apart, so that others may write between them. The claim of an intent
-- is four statements, between which other workers may write. The calls of one
-- gate of model dispatches have no other writer between them. The advisory locks of a sweep and of an
-- emergency release make these one step each, and so is every other operation that runs in a
-- transaction: where a concurrent write would make its fenced update fail, it throws and writes
-- nothing. Of the JSON in the column `details` the model keeps the identifiers that the code reads. A
-- text column with few values is a data type. The clock of the process
-- and that of the database are two parameters. The texts of reasons and errors are constructors with what
-- they interpolate.
--
-- Bounds and units: amounts are whole ten-thousandths, the scale of the columns; a number that is not
-- finite or negative is a case of `Numeric`. Tokens are six-thousandths, in which each rate of the
-- configuration is whole for a millisecond. Confidences are ten-thousandths. The only fuel is that of
-- `decimal`, the number itself and one, which is more than its digits; the loop over attempt numbers
-- runs `maxAttempts` times as in the code, and that of the model's attempts `maxRetries` times and once more.
-- The draw of the jitter of a delay is in thousandths, and the options of the delays are whole. The size of a payload's text
-- and the lower case of a message are parameters, and the regular expression for a status is a search.
--
-- Not modelled: SQL, transactions that fail and are retried, floating-point rounding, the evidence schemas
-- (the policy takes the two control fields of validated evidence), express and HTTP, the model itself, the parsing of its
-- answers, timers, delivery attempts (an unguarded insert), and the other repositories and services.
pub mod Prelude
pub mod Budget
pub mod Scenario
pub mod Policy
pub mod Limits
pub mod Provider
pub mod Leases
pub mod Workflow
pub mod Gemini
pub mod Examples
