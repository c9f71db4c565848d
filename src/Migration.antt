-- ===== src/Migration.antt =====
-- internal/config/migration.go and migration_journal.go: the transaction that writes a migrated
-- configuration and its marker, and the recovery of one that was interrupted.
pub mod Disk
pub mod Journal
pub mod Snapshot
pub mod Recover
pub mod Apply
pub mod Logic
pub mod Steps
pub mod Writes
pub mod Artifact
pub mod Removal
pub mod Transaction
pub mod JournalSteps
pub mod RollBack
pub mod Complete
pub mod Atomic
pub mod Commit
pub mod Saves
pub mod Applies
pub mod Atomicity
pub mod Unknown
pub mod Tests
