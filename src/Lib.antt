-- ===== src/Lib.antt =====
-- CPA Usage: how queued usage records become events, once each, and how the inbox that holds them in
-- between is kept.
--
-- The program pops usage records from a queue of CPA, writes a projection of each into the table
-- `redis_usage_inboxes`, and a processor turns the rows into rows of `usage_events` and adds them to
-- hourly rollups. The parts and their files:
--
--   Inbox       internal/repository/redis_usage_inbox.go, internal/entities/redis_usage_inbox.go: the
--               table and its statements; Inbox/ErrorText the stored error text, Inbox/Single the
--               statements on one row, Inbox/Retention the daily cleanup
--   Accounting  internal/repository/usage_accounting.go: the validator of the token facts
--   Attempt     internal/service/redis_usage.go, redis_usage_accounting.go,
--               internal/cpa/usage_accounting.go: a record, its decoder, its projection, its event;
--               Attempt/Types holds the types, Attempt/Codec the decoder and the projection
--   Events      internal/repository/db.go (`InsertUsageEvents`) and batch.go: the events table
--   Processor   internal/service/redis_usage_processor.go: one run over the inbox
--   Intake      internal/service/redis_usage_intake.go: one pull of the queue into the inbox
--   History     pulls, runs and cleanups of one database in any order
--   Session     internal/auth/session.go: the sessions of a manager without a signing key;
--               Session/Signed the tokens of one with a key
--   Login       internal/api/auth.go: the failed logins of each client and the decision of a login
--   ManualSync  internal/app/manual_sync.go: the runner of manual syncs and its callers, one step a
--               section under the mutex
--   Drain       internal/poller/redis_drain.go: the flags that keep pulls, process runs and manual syncs
--               apart, the outcome of a manual sync, the metrics; Drain/Jobs lets any number of jobs
--               run side by side
--   Quota       internal/quota/refresh_task_store.go: the tasks that refresh quotas; Quota/Refresh
--               refresh.go, service.go and registry.go, Quota/Message errors.go
--   Backup      internal/app/backup_runner.go, maintenance.go: when backups and cleanups run;
--               Backup/Files internal/backup/backup.go
--   Update      internal/updatecheck/checker.go: versions and the update check
--   Throughput  internal/repository/usage_accounting.go (`InterpretUsageAttempt`) and usage_events.go
--               (throughputs, as the numbers that are divided)
--   Overview    internal/repository/usage_overview.go: the statistics over events
--   AccountStatus  internal/service/account_status.go, with parts of sync.go and of
--               internal/repository/usage_identities.go: switching an account on or off
--   DisplayName  internal/entities/usage_identity.go: the names that people see for identities
--   Health      internal/repository/usage_health.go: the grid of request health and its blocks
--   Redact      internal/redact/redact.go: aliases and display names of API keys; Redact/Snapshot the
--               redacted snapshot and its payload in internal/api/usage_overview.go
--   Text, Clock, Int, Result, Dict: Go's strings (as bytes), times, int64, errors and maps
--   Base        names and lemmas that all files share
--   Tests       runs on small inputs
--
-- The other files of a part's folder hold proofs; Processor/Consistent states the invariant between
-- the inbox and the events. A function keeps its Go name in snake case; where a name differs, a comment
-- says which function it is. A table is the list of its rows in id order, and a statement a function
-- on tables. Sections under a mutex are single steps. Calls of the database may fail: an `Option Text` says whether
-- a call does, with which message, and a failed statement or transaction changes nothing. Loops
-- over batches run on the length of their list as fuel, since each round takes an element; the
-- loop that cuts an error text runs on the bound of 1024 bytes, the digits of an id on the id, and the
-- removal of a text inside another on the length of the latter.
-- Sums of tokens wrap around at 64 bits, behind the guard of the code.
--
-- Not modelled: JSON, SHA-256 and HMAC, Unicode's case tables and the local time zone, which are
-- parameters (`Platform`, `local_day_start`, `Calendar`, `Zone`), with what the code relies on as hypotheses;
-- what the rollups hold; log lines; the routes of the HTTP interface, the queue client, the providers
-- of quotas, the copy of the database and the queries of the dashboards.
mod Base
pub mod Text
pub mod Dict
pub mod Clock
pub mod Int
pub mod Result
pub mod Accounting
pub mod Attempt
pub mod Events
pub mod Processor
pub mod Intake
pub mod History
pub mod Session
pub mod Login
pub mod ManualSync
pub mod Drain
pub mod Quota
pub mod Backup
pub mod Update
pub mod Throughput
pub mod Overview
pub mod Health
pub mod DisplayName
pub mod AccountStatus
pub mod Redact
pub mod Inbox
pub mod Tests
