-- ===== src/RowBackup.antt =====
-- The backups of the rows that a statement changes, of rowset-core/internal/api/rowbackup.go: the
-- statement that reads them and the statements that put them back.
pub mod Restore
pub mod Target
pub mod Apply
