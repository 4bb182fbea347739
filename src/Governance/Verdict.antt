-- ===== src/Governance/Verdict.antt =====
-- The verdict on a statement: `EvaluateStatement` and the decision of `ExecuteDeferred` in
-- rowset-core/internal/api/escalation.go, and that of `openGovernedSelect` in
-- rowset-core/internal/api/scheduler.go. What the store lists is an argument, `none` is its error.
pub mod Guarded
use rowset_studio.Common.{
  ℕ, Bool, true, false, not, ◌&&◌, ◌||◌, Option, none, some, List, [], Bytes, codes, set_at,
  if◌then◌else◌,
}
use rowset_studio.SqlGuard.Types.{Runtime, Info}
use rowset_studio.Policy.{Decision, Input, Rule, evaluate, run_evaluate}
use rowset_studio.Access.{Identity, Connection, Access, AccessRole, is_admin, role_of, access_rules}
use rowset_studio.Governance.Overrides.{
  PolicyOverride, Resolved, resolve_policies, is_scoped, apply_override, limit_value, toggle,
}
use rowset_studio.Governance.Custom.{
  CustomPolicy, CustomRules, applies, block_reason, case_of, row_limit_of, extend,
  apply_custom_policies,
}

-- What the program registers, what is installed, what the store lists, and the minute of the day.
pub record Workspace : Type 1 where
  pub runtime : Runtime
  pub rules : List Rule
  pub custom_rules : CustomRules
  pub access : Option Access
  pub shared : Bool
  pub overrides : Option (List PolicyOverride)
  pub custom_policies : Option (List CustomPolicy)
  pub minute : ℕ

-- `policy.Input` for a caller with a role on a connection.
unfoldable pub input_for : Bool → AccessRole → Connection → Info → Resolved → Input
input_for cleared role connection info resolved = record {
  statement = info;
  role = role.name;
  read_only = role.read_only || connection.read_only;
  environment = connection.environment;
  cleared = cleared;
  disabled = λ key. resolved.disabled (codes key);
  enabled = λ key. resolved.enabled (codes key);
}

abbrev pub decision_of : Option (Decision × ℕ) → Option Decision
decision_of none = none
decision_of (some d) = some d.0

module _ (w : Workspace) where
  -- `resolvePolicies`.
  unfoldable pub resolved_for : Identity → Connection → Option Resolved
  resolved_for identity connection = elim w.overrides [
    | none ↦ none
    | some items ↦ some (resolve_policies w.runtime connection.id identity.role items)
  ]

  -- `policy.Evaluate`, and `applyCustomPolicies` unless the caller is exempt from it.
  unfoldable pub decide :
      Bool → Bool → Identity → AccessRole → Connection → Info → Resolved → Option (Decision × ℕ)
  decide cleared exempt identity role connection info resolved =
      let decision = evaluate w.rules (input_for cleared role connection info resolved) in
      if exempt then some (decision, resolved.row_limit) else elim w.custom_policies [
        | none ↦ none
        | some items ↦ some (
            apply_custom_policies w.runtime w.custom_rules w.minute connection.id identity.role info
              cleared items decision resolved.row_limit)
      ]

  -- `EvaluateStatement`, which drops the limit; `none` is its error.
  unfoldable pub evaluate_statement : Identity → Connection → Info → Option Decision
  evaluate_statement identity connection info = elim (role_of w.access identity.user_id) [
    | none ↦ none
    | some role ↦ elim (resolved_for identity connection) [
      | none ↦ none
      | some resolved ↦
          decision_of (decide false (is_admin identity) identity role connection info resolved)
    ]
  ]

  -- The decision of `ExecuteDeferred`, on a statement that was cleared.
  unfoldable pub deferred_decision :
      Identity → AccessRole → Connection → Info → Option (Decision × ℕ)
  deferred_decision identity role connection info = elim (resolved_for identity connection) [
    | none ↦ none
    | some resolved ↦ decide true (is_admin identity) identity role connection info resolved
  ]

  -- The decision of `openGovernedSelect`.
  unfoldable pub select_decision : Identity → AccessRole → Connection → Info → Option (Decision × ℕ)
  select_decision identity role connection info = elim (resolved_for identity connection) [
    | none ↦ none
    | some resolved ↦
        decide false (w.shared && is_admin identity) identity role connection info resolved
  ]

  -- `evaluate_statement` with the definitions that it calls, to run it.
  unfoldable pub run_verdict : Identity → Connection → Info → Option Decision
  unfolding evaluate_statement resolved_for decide run_evaluate role_of access_rules is_admin
      apply_custom_policies applies block_reason case_of row_limit_of resolve_policies extend
      is_scoped apply_override limit_value input_for toggle set_at
  run_verdict = evaluate_statement
