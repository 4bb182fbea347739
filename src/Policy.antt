-- ===== src/Policy.antt =====
-- rowset-core/internal/policy/policy.go: the guardrails on a parsed statement.
pub mod Guardrails
pub mod Scripts
use rowset_studio.Common.{
  Bool, true, false, not, ◌&&◌, ◌||◌, Option, none, some, List, [], ◌∷◌, String, Bytes, codes,
  if◌then◌else◌,
}
use rowset_studio.SqlGuard.Types.{
  Kind, select, update, delete, other, unknown, kind_eq, TableRef, Info, lacks_where, is_write,
}

pub data Effect : Type 0 where
  allow deny : Effect

pub data Risk : Type 0 where
  low medium high critical : Risk

pub record Decision : Type 0 where
  pub effect : Effect
  pub policy_id : Bytes
  pub reason : Bytes
  pub risk : Risk

-- `Input`; a map from a rule's key to a Boolean is a function, false at a key that is not in it.
pub record Input : Type 0 where
  pub statement : Info
  pub role : Bytes
  pub read_only : Bool
  pub environment : Bytes
  pub cleared : Bool
  pub disabled : String → Bool
  pub enabled : String → Bool

-- `Rule`: `none` where the source returns false.
abbrev pub Rule : Type 0
Rule = Input → Option Decision

abbrev pub denial : String → String → Risk → Decision
denial key reason risk = record {
  effect = deny;
  policy_id = codes key;
  reason = codes reason;
  risk = risk;
}

-- The closure `deny`.
unfoldable pub deny_unless : Input → String → String → Risk → Option Decision
deny_unless input key reason risk =
    if input.cleared || input.disabled key then none else some (denial key reason risk)

-- `if test { if d, ok := …; ok { return d } }`, and then the rest.
abbrev pub checked : Bool → Option Decision → Decision → Decision
checked false d rest = rest
checked true none rest = rest
checked true (some d) rest = d

abbrev pub has_tables : List TableRef → Bool
has_tables [] = false
has_tables _ = true

unfoldable pub apply_rules : List Rule → Input → Decision
apply_rules [] input = record { effect = allow; policy_id = []; reason = []; risk = low }
apply_rules (r ∷ rs) input = elim (r input) [ some d ↦ d | none ↦ apply_rules rs input ]

-- The checks behind those on the shape of the statement.
unfoldable pub evaluate_known : List Rule → Input → Decision
evaluate_known rules input =
    let stmt = input.statement in
    checked (lacks_where stmt select && has_tables stmt.tables)
      (deny_unless input "deny_select_without_where"
        "SELECT from a table without WHERE is forbidden" medium)
      (checked (lacks_where stmt delete)
        (deny_unless input "deny_delete_without_where" "DELETE without WHERE is forbidden" critical)
        (checked (lacks_where stmt update)
          (deny_unless input "deny_update_without_where" "UPDATE without WHERE is forbidden"
            critical)
          (checked stmt.is_drop (deny_unless input "deny_drop" "DROP is forbidden" critical) (
            checked stmt.is_truncate
              (deny_unless input "deny_truncate" "TRUNCATE is forbidden" high)
              (if input.read_only && is_write stmt.kind && not input.cleared
                then denial "read_only_role" "read-only role may not run write statements" high
                else apply_rules rules input)))))

abbrev pub unclassified_reason : String
unclassified_reason =
    "Rowset does not recognise this statement's shape and the guardrail blocks what it cannot judge; it can be turned off in policies, and the statement reported so a later release recognises it"

-- `Evaluate`, with the rules that are registered.
unfoldable pub evaluate : List Rule → Input → Decision
evaluate rules input =
    let stmt = input.statement in
    let is_other = kind_eq stmt.kind other in
    checked (stmt.is_script && input.enabled "deny_multi_statement")
      (deny_unless input "deny_multi_statement"
        "running several SQL statements at once is forbidden, and this workspace's policies keep it that way"
        high)
      (if kind_eq stmt.kind unknown
        then denial "unknown_statement" "unclassifiable SQL is forbidden" critical
        else if is_other && input.read_only && not input.cleared
        then denial "read_only_unclassified"
            "Rowset does not recognise this statement's shape, and a read-only role may only run statements it can judge"
            high
        else checked (is_other && input.enabled "deny_unclassified")
            (deny_unless input "deny_unclassified" unclassified_reason high)
            (evaluate_known rules input))

-- The definitions of this module and those that it calls, to run them.
unfoldable pub run_evaluate : List Rule → Input → Decision
unfolding evaluate evaluate_known apply_rules deny_unless lacks_where is_write kind_eq
run_evaluate = evaluate
