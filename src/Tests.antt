-- ===== src/Tests.antt =====
-- Runs of the definitions on small inputs, and an instance of each theorem with conditions.
pub mod InboxTests
pub mod AttemptTests
pub mod HistoryTests
pub mod LoginTests
pub mod SyncTests
pub mod DrainTests
pub mod QuotaTests
pub mod BackupTests
pub mod OverviewTests
pub mod RedactTests
pub mod SignedTests
pub mod UpdateTests
pub mod HealthTests
pub mod AccountTests
pub mod NameTests
