-- ===== src/Lib.antt =====
-- A verification library for the backup manager of this repository: a web service (app/) that
-- runs rclone and Proxmox backup jobs on a schedule, keeps its state in one SQLite database
-- (app/db.py), and tells paired iPhones about the outcome.
--
-- The program's parts that are modelled, and the files that model them:
-- - Throttle: the counters behind a login, in the table auth_failures (`auth_*` of app/db.py), the
--   in-memory fallback and the guarded password check of app/auth.py (`login_retry_after`,
--   `record_login_failure`, `require_reauthentication` and their like, in Throttle/Memory). Other requests may run while a
--   password is checked.
-- - Tokens: passkeys and single-use tokens (`webauthn_credential_*`, `webauthn_challenge_*`,
--   `native_auth_exchange_*` and `native_webauthn_registration_*` of app/db.py), a child module for
--   each table. Tokens.Calls runs any sequence of these operations.
-- - Outbox: paired devices and the notifications waiting for them (`push_device*` of app/db.py in
--   Outbox, `push_outbox_*` in Outbox/Queue and Outbox/Finish). Dispatchers work on the rows under
--   leases; Outbox/Steps runs any sequence of their calls, by whichever of them, so that it covers
--   every interleaving of the transactions.
-- - Dispatch: a worker that delivers the notifications (`dispatch_pending_pushes` of
--   app/push_notifications.py), as a client of Outbox: between its transactions other workers may
--   run any calls of Outbox/Steps.
-- - Batch: job definitions that are run one after the other (`job_batch_*` of app/db.py).
-- - Scheduler: when a job is due (`_slot_key`, `_due_slot`, `_is_due` of app/jobs/scheduler.py in
--   Scheduler, `_evaluate_due` in Scheduler/Evaluate).
-- - Sampling: the files that a restore test reads (app/jobs/restore_sampling.py).
-- - Planner: which pairs of a sync may run side by side (app/jobs/pair_planner.py, and
--   `_selected_pairs` and `_next_runnable_pair_index` of app/jobs/rclone_sync.py).
-- - Runtime: the runtime settings and the audit log (`runtime_*`, `audit_*` of app/db.py).
-- - Jobs: the rows of jobs and of their attempts at single pairs, the history of pairs and the last
--   attempt and success of a definition (app/db.py). Jobs/Start is `job_start`, Jobs/Finish and
--   Jobs/Close are `job_finish` with `_store_pair_results` and `_terminalize_running_attempts`,
--   Jobs/Stale the marking of lost jobs and the deletions, Jobs/Terminal the retried end of an
--   external action (`job_terminal_*`, `job_finish_external`), Jobs/States the two tables that
--   outlive the rows. Jobs/Calls runs any sequence of these operations.
-- - Protection: the guard against unexpected deletions (app/protection.py), which keeps its state in
--   a runtime setting and compares paths as the planner does. Protection/Guard has its operations
--   and runs any sequence of them.
-- - Base: lists, texts, tables and tests that the parts share.
-- Each part's data and operations stand in the modules named above; the modules beside them hold
-- the proofs and are named for what they prove, and a module Examples holds the tests.
--
-- How the code is modelled:
-- - A table of the database is a list of records, in the order of insertion; an operation takes the
--   tables and gives its reply with the tables after it. Each operation is one transaction, and one
--   that raises an exception gives `none` and leaves the tables, since the code rolls back.
-- - `ORDER BY` is a stable sort: rows that the clause does not tell apart stay in table order.
-- - Integers are natural numbers, and times natural numbers of microseconds, where the code has
--   floats of seconds. A difference that could be negative is written as a comparison of sums.
-- - The clocks, UUIDs, random texts, JSON texts and whether the database answers are arguments, and
--   so are croniter, zoneinfo and the file system where the code uses them.
-- - Two loops run on fuel: `range(3)` of `_evaluate_due`, whose bound is the code's, and the loop
--   that starts pairs, which takes one pair in each round and has the number of waiting pairs as
--   its fuel. All other loops go through a list.
-- - A job's summary is a record of what is read of it, with its JSON text beside it. A drop of the
--   deletion guard is compared with its limit exactly, in hundredths of a percent, where the code
--   rounds to floats.
-- - `job_finish_external` goes through a list of tries, each of which says where the database is
--   busy, if it is.
--
-- Not modelled: the web routes and pages, the apps, the execution of rclone and proxmox programs
-- with their files, locks and logs, the reading of the configuration, the queries of app/db.py that
-- list jobs and pair results, its migrations, the foreign keys between the items of a
-- batch and the jobs, the audit entries and the score of
-- app/protection.py, that a dispatcher which lost a lease has closed its connection for the rows that
-- follow, and calls by others between the transactions of `job_terminal_apply`, which is one step but
-- for the places where the database is busy.
pub mod Base
pub mod Throttle
pub mod Outbox
pub mod Dispatch
pub mod Tokens
pub mod Batch
pub mod Scheduler
pub mod Sampling
pub mod Planner
pub mod Protection
pub mod Runtime
pub mod Jobs
