-- ===== src/SqlGuard.antt =====
-- rowset-core/sqlguard: the SQL analysis that the policies rest on.
pub mod Types
pub mod Lexer
pub mod Split
pub mod Constant
pub mod Tables
pub mod Effects
pub mod Classify
pub mod Script
pub mod Cache
pub mod Cql
pub mod Readings
