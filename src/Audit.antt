-- ===== src/Audit.antt =====
-- The audit log of rowset-core/internal/store/audit.go: `PrepareAudit`, `VerifyPreparedAudit`,
-- `VerifyAuditChain` and `WriteActivity`, with `AuditLog` of rowset-core/internal/domain/models.go.
pub mod Entry
pub mod Database
pub mod Verify
pub mod Write
pub mod Chains
pub mod Rows
pub mod Inserting
pub mod Appending
pub mod Tampering
pub mod Retention
