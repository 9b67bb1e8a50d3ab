-- ===== src/ScanJournal.antt =====
-- The sell-put scan journal (internal/scanjournal): candidates are registered, reconciled once they
-- have expired, and counted; its two tables are those of internal/datastore/sqlite/scan_journal.go.
pub mod Types
pub mod Settle
pub mod Store
pub mod Register
pub mod Reconcile
pub mod Stats
pub mod Tests
