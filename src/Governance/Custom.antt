-- ===== src/Governance/Custom.antt =====
-- `applyCustomPolicies` of rowset-core/internal/api/query.go, over the policies that the store
-- lists, with `CustomPolicy` of rowset-core/internal/domain/models.go. The kinds that a program
-- registers (`customRules` of rowset-core/internal/api/policies.go) are a parameter.
pub mod Blocks
pub mod Limits
pub mod Blocking
pub mod Outcome
use rowset_studio.Common.{
  ℕ, String, Bool, true, false, not, ◌&&◌, ◌||◌, Option, none, some, List, [], ◌∷◌, ◌++◌, Bytes,
  codes, is_word, any_word, bytes_eq, if◌then◌else◌, any, ltb, ◌==◌, trim_space, ℤ, pos, negsuc,
  atoi,
}
use rowset_studio.SqlGuard.Types.{
  Runtime, equal_fold, Kind, unset, select, insert, update, delete, ddl, session, other, unknown,
  multi, kind_eq, TableRef, Info, is_write,
}
use rowset_studio.Policy.{Decision, deny, high}
use rowset_studio.Governance.Clock.{outside_hours}

pub record CustomPolicy : Type 0 where
  pub id : Bytes
  pub name : Bytes
  pub kind : Bytes
  pub config : Bytes
  pub connection_id : Option Bytes
  pub role_name : Option Bytes
  pub enabled : Bool

-- `customRules`: the rule of a kind; it answers with a decision where it applies.
abbrev pub CustomRules : Type 0
CustomRules = Bytes → Option (CustomPolicy → Info → Bool → Decision → Option Decision)

-- The string of a kind.
unfoldable pub kind_name : Kind → Bytes
kind_name unset = []
kind_name select = codes "select"
kind_name insert = codes "insert"
kind_name update = codes "update"
kind_name delete = codes "delete"
kind_name ddl = codes "ddl"
kind_name session = codes "session"
kind_name other = codes "other"
kind_name unknown = codes "unknown"
kind_name multi = codes "multi"

abbrev agrees : (Bytes → Bool) → Option Bytes → Bool
agrees test none = true
agrees test (some wanted) = test wanted

-- The policy is on, and for this connection and this role.
unfoldable pub applies : Runtime → Bytes → Bytes → CustomPolicy → Bool
unfolding bytes_eq
applies rt connection_id role item =
    item.enabled
    && agrees (λ c. bytes_eq c connection_id) item.connection_id
    && agrees (λ r. equal_fold rt r role) item.role_name

unfoldable pub match_table : Runtime → Info → CustomPolicy → Bool
unfolding trim_space
match_table rt info item = any (λ t. equal_fold rt t.name (trim_space item.config)) info.tables

unfoldable pub match_schema : Runtime → Info → CustomPolicy → Bool
unfolding trim_space
match_schema rt info item = any (λ t. equal_fold rt t.schema (trim_space item.config)) info.tables

unfoldable pub match_kind : Runtime → Info → CustomPolicy → Bool
unfolding trim_space kind_name
match_kind rt info item = equal_fold rt (kind_name info.kind) (trim_space item.config)

-- The kinds of the `switch`.
pub data Case : Type 0 where
  deny_table deny_schema deny_statement limit_rows deny_write_outside_hours extension : Case

unfoldable pub case_of : Bytes → Case
unfolding bytes_eq
case_of kind =
    if is_word kind "deny_table"
    then deny_table
    else if is_word kind "deny_schema"
    then deny_schema
    else if is_word kind "deny_statement"
    then deny_statement
    else if is_word kind "limit_rows"
    then limit_rows
    else if is_word kind "deny_write_outside_hours"
    then deny_write_outside_hours
    else extension

-- The closure `blocks`.
unfoldable pub custom_denial : CustomPolicy → Bytes → Decision
custom_denial item reason = record {
  effect = deny;
  policy_id = codes "custom:" ++ item.id;
  reason = reason;
  risk = high;
}

abbrev policy_reason : CustomPolicy → String → String → Bytes
policy_reason item verb tail =
    codes "policy '" ++ (item.name ++ (codes verb ++ (item.config ++ codes tail)))

-- The reason for which a built-in kind blocks the statement, in the minute of the day, if it does.
unfoldable pub block_reason : Runtime → ℕ → Info → CustomPolicy → Option Bytes
unfolding match_table match_schema match_kind is_write outside_hours
block_reason rt minute info item = elim (case_of item.kind) [
  | deny_table ↦
      if match_table rt info item then some (policy_reason item "' blocks table " "") else none
  | deny_schema ↦
      if match_schema rt info item then some (policy_reason item "' blocks schema " "") else none
  | deny_statement ↦
      if match_kind rt info item then some (policy_reason item "' blocks " " statements") else none
  | deny_write_outside_hours ↦
      if is_write info.kind && outside_hours minute item.config
      then some (policy_reason item "' blocks writes outside " "")
      else none
  | limit_rows ↦ none
  | extension ↦ none
]

-- The limit behind a policy on rows; 0 is no limit.
unfoldable pub tighten : ℤ × Bool → ℕ → ℕ
tighten (pos value, true) limit =
    if ltb 0 value && (limit == 0 || ltb value limit) then value else limit
tighten _ limit = limit

unfoldable pub row_limit_of : Info → CustomPolicy → ℕ → ℕ
unfolding kind_eq tighten atoi trim_space
row_limit_of info item limit = elim (case_of item.kind) [
  | limit_rows ↦
      if kind_eq info.kind select then tighten (atoi (trim_space item.config)) limit else limit
  | _ ↦ limit
]

abbrev extended : Option Decision → Decision → Decision
extended none decision = decision
extended (some next) decision = next

-- The decision behind a rule that is registered.
unfoldable pub extend : Runtime → CustomRules → Bool → Info → CustomPolicy → Decision → Decision
unfolding match_table
extend rt rules cleared info item decision = elim (case_of item.kind) [
  | extension ↦ elim (rules item.kind) [
    | none ↦ decision
    | some rule ↦
        if cleared
        then decision
        else extended (rule item info (match_table rt info item) decision) decision
  ]
  | _ ↦ decision
]

-- `applyCustomPolicies` at a minute of the day, for the id of a connection and a role.
unfoldable pub apply_custom_policies :
    Runtime
    → CustomRules
    → ℕ
    → Bytes
    → Bytes
    → Info
    → Bool
    → List CustomPolicy
    → Decision
    → ℕ
    → Decision × ℕ
apply_custom_policies rt rules minute connection_id role info cleared [] decision limit =
    (decision, limit)
apply_custom_policies rt rules minute connection_id role info cleared (item ∷ items) decision
      limit =
    let skipped =
      apply_custom_policies rt rules minute connection_id role info cleared items decision limit in
    let later =
      apply_custom_policies rt rules minute connection_id role info cleared items
        (extend rt rules cleared info item decision) (row_limit_of info item limit) in
    if not (applies rt connection_id role item)
    then skipped
    else elim (block_reason rt minute info item) [
      | none ↦ later
      | some reason ↦ if cleared then later else (custom_denial item reason, limit)
    ]
