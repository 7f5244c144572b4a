-- ===== src/Lib.antt =====
-- openseer watches URLs: a control plane schedules checks, leases them to workers and stores what
-- they measure. This library models the control plane (internal/app/control-plane), the worker agent
-- (internal/app/worker) and the packages they share (internal/pkg), and proves what makes them
-- correct.
--
-- How the parts interact. The scheduler creates jobs for the monitors that are due; a worker leases
-- jobs, runs them, extends its leases and submits results; the ingest stores a result before its job
-- is completed; the reaper gives expired leases back and the cleaner deletes old jobs. All of them
-- meet in the tables, so the statements on app.jobs are the core: every actor is a sequence of them.
--
--   Base            lists, Boolean tests, dictionaries, sorting, signed durations, results
--   Store           internal/app/control-plane/store/sqlc: the rows and the statements of the SQL in
--                   jobs.sql.go, workers.sql.go, monitors.sql.go, results.sql.go and the sessions
--     Store.Jobs    app.jobs; Lifecycle has the statements as one type of operations with the life
--                   of a job, Queries the reads, Table, Moves, Invariant, Lookup, Exclusive,
--                   Leasing, Polls, Spacing and Reaping the proofs
--     Store.Workers (with Status and Capabilities), Store.Monitors (with Queries and Deleted),
--                   Store.Results (with Upsert, Queries, Metrics, Uptime and Uptime.Sums),
--                   Store.Sessions, Store.Dispatch (the lease joined with the monitors), Store.Db (one statement
--                   under faults)
--   ControlPlane
--     Heartbeats    api/worker/heartbeat_tracker.go
--     AuthCache     middleware/worker_auth_cache.go; Index, Preserved, Limits, History,
--                   Removal, Revocation
--     Token         middleware/token_auth.go and internal/pkg/auth/auth.go; Requests
--     Session       auth/session/middleware.go; Sound and Requests
--     Enrollment    api/enrollment/service.go; Issued, Listing, Revoked, Barred
--     Ingest        metrics/ingest.go
--     WorkerService api/worker/service.go; Calls, Commit, Polling, Served, Renewal
--     MonitorsService api/monitors/service.go; Listing, Ownership, Reads, Warnings, Uptime,
--                   Fallback, Totals, Missing, Metrics (with Scanned)
--     Dashboard     api/dashboard/service.go and api/user/service.go; Latest, Counts, Answer
--     Scheduler     scheduler.go; Timing, Coverage, Iteration, Pace
--     JobCleaner    job_cleaner.go, lease_reaper.go, inactivity_monitor.go; Drain
--     Regions       internal/pkg/regions/normalize.go; Normal
--     System        the actors above as one step type over the database, and which statements on
--                   app.jobs each step may make: Statements, Periodic, Refinement
--   Worker          internal/app/worker/worker.go, polling.go and executor.go; Backoff, Submit,
--                   Submit.Ends, Polling (Capacity), Executor (Stored)
--   Commands        the settings that cmd/control-plane/main.go and cmd/worker/main.go read from
--                   the environment (Settings), the agent they give (Agent) and
--                   internal/pkg/recovery (Recovery)
--   Tests           concrete runs of all of these
--
-- How state is modelled. A table is a list of records, a statement a function from the table and
-- NOW() to its rows and the new table. Rows locked by other transactions (FOR UPDATE SKIP LOCKED) are
-- a Boolean function that may be any. A handler works on a Database with a list of faults: a
-- statement is served, never arrives, or takes effect and loses its answer. Instants are nanoseconds
-- since Go's zero time; durations and 32-bit counts that may be negative are signed. Mutexes make
-- each method one step. The authentication of a header is one step too, so a lookup that is under way
-- while a worker is revoked is outside the model. Columns keep nanoseconds where the database rounds
-- to microseconds. Maps are association lists, iterated in the order of the list.
--
-- Fuel. The eviction of the cache has one round for each entry, since each round drops one; the
-- clean-up has one round for each row and one more, since each full batch deletes a row.
--
-- Parameters, which stand for code that is not in the repository, for what a type here does not carry
-- (a sum of floats, say), or for values that nothing here depends on: SHA-256, HMAC and the decoding of
-- hexadecimal text and of escaped cookies, the FNV sum of a monitor, the run id that generateRunID
-- makes, trimming and lowercasing, random ids and tokens, the database's percentages and the scan of
-- one into an integer, float64 in the metrics, the collation of text, os.Getenv with the readers of
-- numbers and of durations, and the answer of the checked server.
--
-- Not modelled: the set-up of HTTP clients, servers and signals; tickers and goroutines, whose bodies
-- are steps; logs; generated code; the web front end; of the migrations the foreign keys (no statement
-- deletes the row of a monitor, and jobs are created of monitors that the same transaction read), while
-- primary keys, unique indexes and the CHECK on the status of a result are part of the statements.
-- The type of the statements on app.jobs leaves out LeaseJobs and ForceExpireJobLease, which only
-- tests/integration calls; Store.Jobs.Queries has them. System has the calls that change app.jobs or
-- the monitors; the enrollment, dashboard and user services are proved on their own. The Go clock and
-- NOW() are one clock.
pub mod Base
pub mod Store
pub mod ControlPlane
pub mod Worker
pub mod Commands
pub mod Tests
