-- ===== src/Tests.antt =====
-- Runs of the model on concrete texts, and the theorems at concrete inputs.
pub mod Fixtures
pub mod AuditTable
mod SqlRuns
mod Witnesses
mod AuditWitnesses
mod GovernanceWitnesses
mod StatementWitnesses
mod SessionWitnesses
mod ScheduleWitnesses
mod CacheWitnesses
mod RecordingWitnesses
mod ImportWitnesses
mod MultiRunWitnesses
mod AuthWitnesses
