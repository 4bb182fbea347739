-- ===== src/Governance.antt =====
-- How the settings of a workspace reach the guardrails: the overrides of policies and the custom
-- policies of rowset-core/internal/api/query.go, and the verdict of
-- rowset-core/internal/api/escalation.go that combines them with `policy.Evaluate`.
pub mod Clock
pub mod Overrides
pub mod Custom
pub mod Verdict
