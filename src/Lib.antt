-- ===== src/Lib.antt =====
-- Billing, port leases, training runs and budgets of the platform: the API (apps/api), the worker (worker) and the gateway
-- (apps/gateway) share one database (packages/db/prisma/schema.prisma). The API opens a usage session
-- when a workspace runs, the API and the worker's jobs close it, and each close enqueues one meter
-- event that the worker emits to Stripe. The gateway leases three ports to each workspace.
--
-- Common       the client's queries on a table as the list of its rows (Common/Table), Boolean tests
--              and lists over the native numbers.
-- Billing      the tables usage_sessions and workspace_meter_event_outbox (Billing/Rows), prices
--              (Billing/Catalog: resolvePrice and its copies), opening (Billing/Start:
--              startUsageSession of apps/api/src/services/workspaceService.ts,
--              startUsageSessionForColdWorkspace of worker/src/jobs/warm-pool.ts), closing
--              (Billing/Close: finalizeUsageSessions of worker/src/jobs/workspace-cleanup.ts and
--              endUsageSession of workspaceService.ts), emission (Billing/Metering, Billing/Batch:
--              worker/src/jobs/workspace-metering.ts) and the month-to-date spend (Billing/Amounts).
--              Billing/History has the interleavings of the services as a step relation: one step is
--              one transaction or one query.
-- Gateway      the table workspace_endpoints, the Map and the Set of apps/gateway/src/index.ts, the
--              routes allocate and release (Gateway/Leases) and the boot (Gateway/Boot:
--              reconcileLeases). A request is served with no other in between.
-- Cleanup      the tables of workspaces, cleanup jobs, GPUs and incidents (Cleanup/Rows), one attempt at a
--              job (Cleanup/Attempt, Cleanup/Run: processCleanupJob of worker/src/jobs/workspace-cleanup.ts) and the
--              worker's turn (Cleanup/Batch: enqueueStaleWorkspaceCleanup and
--              processWorkspaceCleanupJobs). An attempt calls finalize_usage_sessions of Billing and
--              release of Gateway.
-- Spot         the hourly change of prices (updateSpotPrices of worker/src/jobs/spot-pricing.ts): the price of a
--              GPU type (Spot/Price) and the turn over the tables (Spot/Market). Multipliers are exact
--              fractions where the source computes in doubles.
-- Store        values that expire (apps/api/src/lib/ephemeralStore.ts): the Map and Redis as a parameter
--              (Store/Memory), and what callers may rely on (Store/Contract).
-- Runs         training runs: the tables (Runs/Rows), how a run ends and is billed (Runs/Billing), the stages
--              of worker/src/jobs/run-executor.ts (Runs/Stages, Runs/Monitor), the routes of
--              apps/api/src/routes/v1/runs.ts (Runs/Requests, Runs/Events), the lifecycle as a relation
--              (Runs/Lifecycle), and stages and requests in any order (Runs/Play). What requests write while
--              an agent is called is an argument, and what they write between the other reads and writes of
--              a stage is left out. A run's workspace goes to the cleanup by enqueue_cleanup of Cleanup. A
--              tick reads one clock, and database errors other than those of a transaction, of the flag
--              stripeUsageReported and of a row that is gone are left out.
-- Mail         the queue of e-mails (worker/src/jobs/email-outbox.ts).
-- Hooks        webhooks (worker/src/jobs/webhook-delivery.ts): destinations (Hooks/Address) and deliveries
--              (Hooks/Delivery), with the redirects that `fetch` follows. The addresses that the request itself
--              resolves are not seen.
-- Budget       limits of users and organizations (Budget/Monitor, and Budget/Notices for the rows it writes: worker/src/jobs/budget-monitor.ts), which
--              reads the sessions of Billing and writes the jobs of Cleanup and the deliveries of Hooks,
--              and idle workspaces (Budget/Idle: worker/src/jobs/idle-termination.ts).
-- Secrets      secrets at rest (packages/shared/src/secretCrypto.ts) on texts as lists of character codes.
-- Launch       launching and terminating workspaces for users (apps/api/src/services/workspaceService.ts): Assign is
--              how a workspace is got, Service the idempotency key around it. What other requests write between two
--              statements is an argument, and so is the number of polls.
-- Fleet        the warm pool (worker/src/jobs/warm-pool.ts): Clones is the semaphore, Claim the transaction on a GPU,
--              Build the chain of statements after it, Spawn, Waiting and Shrink the turns, Pool the tick. Turns and
--              Steps say once what a tick and a build keep.
--
-- State is passed explicitly: an operation takes the tables and returns them, with an Option or a
-- reply for errors. Ids, users, customers, GPU types and addresses are opaque numbers; times are
-- milliseconds; a status is a data type with the source's values. The clock, generated ids, random
-- draws and the answers of Stripe are arguments, and so are the faults of the database in Billing, Cleanup
-- and Mail, of the transactions, of an operation's row in Launch, and of stripeUsageReported in Runs; the
-- other statements are taken to succeed. A transaction is atomic;
-- the clock stands still within one close. Loops over rows are structural recursion, and the 1000
-- attempts of getUniquePort are its fuel: running out is the error the source throws.
--
-- Not modelled: HTTP parsing and rendering, logging, SSH and Proxmox calls and the web front end, which
-- have no rule of their own to state; the storage bucket of a workspace, the start of a custom image and
-- the texts of errors and of connections, which nothing modelled reads. Volumes, burst nodes, webhook
-- dispatch, the worker's main loop and the other routes of the API are not covered by the files above.
pub mod Common
pub mod Billing
pub mod Gateway
pub mod Cleanup
pub mod Spot
pub mod Store
pub mod Runs
pub mod Mail
pub mod Hooks
pub mod Budget
pub mod Secrets
pub mod Launch
pub mod Fleet
