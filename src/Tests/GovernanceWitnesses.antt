-- ===== src/Tests/GovernanceWitnesses.antt =====
-- The theorems on the resolution of policies and on verdicts, applied to an analyst.
use rowset_studio.Common.{
  ◌≡◌, refl, ◌⊎◌, arith, true, false, Option, none, some, List, [], ◌∷◌, codes, any,
}
use rowset_studio.SqlGuard.Types.{mysql, Info}
use rowset_studio.SqlGuard.Script.{run_parse}
use rowset_studio.Policy.{Decision, allow, low}
use rowset_studio.Policy.Guardrails.{blocked}
use rowset_studio.Access.{AccessRole, is_admin, role_of}
use rowset_studio.Governance.Overrides.{PolicyOverride, Resolved, resolve_policies}
use rowset_studio.Governance.Overrides.Precedence.{
  in_force, last_setting, last_limit, or_else, or_else_not, resolve_policies-last_setting,
}
use rowset_studio.Governance.Custom.{CustomPolicy, CustomRules, apply_custom_policies}
use rowset_studio.Governance.Custom.Blocks.{blocks, Strict}
use rowset_studio.Governance.Custom.Outcome.{Outcome, apply_custom_policies-Outcome}
use rowset_studio.Governance.Verdict.{
  Workspace, input_for, resolved_for, evaluate_statement, run_verdict,
}
use rowset_studio.Governance.Verdict.Guarded.{evaluate_statement-allow}
use rowset_studio.Tests.Fixtures.{ascii_runtime, analyst, warehouse, open_rules}

abbrev selection : Info
unfolding run_parse
selection = (run_parse ascii_runtime mysql (codes "select a from t where a = 1")).0

-- A global override, and one for the analyst's role.
abbrev overrides : List PolicyOverride
overrides =
    record { key = codes "deny_drop"; enabled = false; config = none }
    ∷ record { key = codes "limit_rows"; enabled = true; config = some (codes "50") }
    ∷ []

-- A table that is blocked, and a limit of rows.
abbrev blocked_table : CustomPolicy
blocked_table = record {
  id = codes "1";
  name = codes "no t";
  kind = codes "deny_table";
  config = codes "t";
  connection_id = none;
  role_name = none;
  enabled = true;
}

abbrev ten_rows : CustomPolicy
ten_rows = record {
  id = codes "2";
  name = codes "few";
  kind = codes "limit_rows";
  config = codes "10";
  connection_id = none;
  role_name = some (codes "analyst");
  enabled = true;
}

abbrev no_rules : CustomRules
no_rules = λ kind. none

abbrev allowed : Decision
allowed = record { effect = allow; policy_id = []; reason = []; risk = low }

abbrev office : Workspace
office = record {
  runtime = ascii_runtime;
  rules = [];
  custom_rules = no_rules;
  access = some open_rules;
  shared = true;
  overrides = some overrides;
  custom_policies = some (ten_rows ∷ []);
  minute = 600;
}

no_rules-Strict : Strict no_rules
no_rules-Strict kind rule item info matches decision next s r e = absurd (ground (arith, s))

resolve_policies-last_setting_example :
    (let resolved = resolve_policies ascii_runtime (codes "c") (codes "analyst") overrides in
      let force = in_force ascii_runtime (codes "c") (codes "analyst") overrides in
      (resolved.enabled (codes "deny_drop")
        ≡ or_else (last_setting (codes "deny_drop") force) false)
      × (resolved.disabled (codes "deny_drop")
          ≡ or_else_not (last_setting (codes "deny_drop") force) false)
      × (resolved.row_limit ≡ or_else (last_limit "limit_rows" force) 0)
      × (resolved.query_timeout ≡ or_else (last_limit "query_timeout_seconds" force) 0))
resolve_policies-last_setting_example =
    resolve_policies-last_setting ascii_runtime (codes "c") (codes "analyst") overrides
      (codes "deny_drop")

apply_custom_policies-Outcome_example :
    Outcome ascii_runtime no_rules 600
      (codes "c")
      (codes "analyst")
      selection
      (ten_rows ∷ blocked_table ∷ [])
      allowed
      (apply_custom_policies ascii_runtime no_rules 600
        (codes "c")
        (codes "analyst")
        selection
        false
        (ten_rows ∷ blocked_table ∷ [])
        allowed
        0).0
apply_custom_policies-Outcome_example =
    apply_custom_policies-Outcome ascii_runtime no_rules 600 (codes "c") (codes "analyst") selection
      (ten_rows ∷ blocked_table ∷ []) allowed 0 (λ kind. refl)

abbrev outcome : Option Decision → Decision
outcome none = allowed
outcome (some d) = d

abbrev allowed_verdict : Decision
allowed_verdict = outcome (evaluate_statement office analyst warehouse selection)

evaluate_statement-allow_example :
    (role : AccessRole) × (resolved : Resolved) × (role_of office.access analyst.user_id
      ≡ some role)
    × (resolved_for office analyst warehouse ≡ some resolved)
    × (blocked (input_for false role warehouse selection resolved) ≡ false)
    × ((is_admin analyst ≡ true)
        ⊎ ((items : List CustomPolicy) × (office.custom_policies ≡ some items)
            × (any (blocks ascii_runtime 600 (codes "c") (codes "analyst") selection) items
                ≡ false)))
unfolding run_verdict run_parse
evaluate_statement-allow_example =
    evaluate_statement-allow office no_rules-Strict analyst warehouse selection allowed_verdict refl
      refl
