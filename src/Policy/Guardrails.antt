-- ===== src/Policy/Guardrails.antt =====
-- What the guardrails decide, against a description in which their order does not matter.
use rowset_studio.Common.{
  ◌≡◌, ◌≢◌, ◌↔◌, Bool, true, false, not, ◌&&◌, ◌||◌, List, [], String, arith,
}
use rowset_studio.Policy.{
  Effect, allow, deny, Risk, Decision, Input, Rule, deny_unless, checked, has_tables, apply_rules,
  evaluate_known, evaluate, high, unclassified_reason,
}
use rowset_studio.SqlGuard.Types.{
  select, update, delete, other, unknown, kind_eq, kind_eq_iff, Info, lacks_where, is_write,
}

-- The workspace keeps the rule.
abbrev pub keeps : Input → String → Bool
keeps input key = not (input.disabled key)

-- A rule on what the statement does, that the workspace can turn off, is broken.
unfoldable pub breaks_known : Input → Bool
breaks_known input =
    let stmt = input.statement in
    (lacks_where stmt select && has_tables stmt.tables && keeps input "deny_select_without_where")
    || (lacks_where stmt delete && keeps input "deny_delete_without_where")
    || (lacks_where stmt update && keeps input "deny_update_without_where")
    || (stmt.is_drop && keeps input "deny_drop")
    || (stmt.is_truncate && keeps input "deny_truncate")

-- A rule that the workspace can turn off is broken.
unfoldable pub breaks_rule : Input → Bool
breaks_rule input =
    let stmt = input.statement in
    (stmt.is_script && input.enabled "deny_multi_statement" && keeps input "deny_multi_statement")
    || (kind_eq stmt.kind other
        && input.enabled "deny_unclassified"
        && keeps input "deny_unclassified")
    || breaks_known input

-- What a caller who may only read may not run.
unfoldable pub writes_or_unclear : Info → Bool
writes_or_unclear stmt = is_write stmt.kind || kind_eq stmt.kind other

-- The statement is refused by the built-in guardrails.
unfoldable pub blocked : Input → Bool
blocked input =
    kind_eq input.statement.kind unknown
    || (not input.cleared
        && (breaks_rule input || (input.read_only && writes_or_unclear input.statement)))

-- A decision that is allowed, or one that a check has made.
abbrev pub effect_of : Bool → Effect → Effect
effect_of true e = deny
effect_of false e = e

effect-checked :
    (input : Input) (test : Bool) (key reason : String) (risk : Risk) (rest : Decision)
    → (checked test (deny_unless input key reason risk) rest).effect
      ≡ effect_of (test && not (input.cleared || input.disabled key)) rest.effect
unfolding deny_unless
effect-checked input test key reason risk rest = ground arith

effect-evaluate_known :
    (rules : List Rule) (input : Input)
    → (evaluate_known rules input).effect
      ≡ effect_of
          (not input.cleared
            && (breaks_known input || (input.read_only && is_write input.statement.kind)))
          (apply_rules rules input).effect
unfolding evaluate_known breaks_known
effect-evaluate_known rules input = simp effect-checked (ground arith)

-- `Evaluate` denies what the description blocks; the registered rules decide the rest.
pub effect-evaluate :
    (rules : List Rule) (input : Input)
    → (evaluate rules input).effect ≡ effect_of (blocked input) (apply_rules rules input).effect
unfolding evaluate blocked breaks_rule writes_or_unclear
effect-evaluate rules input =
    let is_other = kind_eq input.statement.kind other in
    simp effect-checked (
      ground (
        arith,
        effect-evaluate_known rules input,
        effect-checked input (is_other && input.enabled "deny_unclassified") "deny_unclassified"
            unclassified_reason high (evaluate_known rules input),
      ))

-- With no further rules a statement is allowed exactly when it is not blocked.
pub evaluate-allow_iff :
    (input : Input) → ((evaluate [] input).effect ≡ allow) ↔ (blocked input ≡ false)
unfolding apply_rules
evaluate-allow_iff input = ground (arith, effect-evaluate [] input)

-- A caller who may only read, and whose statement is not cleared, is allowed neither a write nor a
-- statement of unknown or unrecognised kind, whatever the workspace disables and the rules say.
pub read_only-evaluate :
    (rules : List Rule) (input : Input)
    → input.read_only ≡ true
    → input.cleared ≡ false
    → (evaluate rules input).effect ≡ allow
    → (is_write input.statement.kind ≡ false)
      × (input.statement.kind ≢ other)
      × (input.statement.kind ≢ unknown)
unfolding blocked writes_or_unclear
read_only-evaluate rules input r c h = ground (
  arith,
  effect-evaluate rules input,
  kind_eq_iff input.statement.kind other,
  kind_eq_iff input.statement.kind unknown,
)
