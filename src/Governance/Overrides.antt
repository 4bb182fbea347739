-- ===== src/Governance/Overrides.antt =====
-- `resolvePolicies` of rowset-core/internal/api/query.go, over the overrides that the store lists,
-- and `PolicyOverride` of rowset-core/internal/domain/models.go.
pub mod Precedence
use rowset_studio.Common.{
  ℕ, String, Bool, true, false, not, ◌&&◌, ◌||◌, Option, none, some, List, [], ◌∷◌, ◌++◌, Bytes,
  codes, is_word, bytes_eq, if◌then◌else◌, set_at, cut, has_prefix, trim_prefix, trim_space, ℤ, pos,
  negsuc, natural, atoi,
}
use rowset_studio.SqlGuard.Types.{Runtime, equal_fold}

pub record PolicyOverride : Type 0 where
  pub key : Bytes
  pub enabled : Bool
  pub config : Option Bytes

-- The two maps, the limit of rows and the timeout of queries; 0 is no limit.
pub record Resolved : Type 0 where
  pub disabled : Bytes → Bool
  pub enabled : Bytes → Bool
  pub row_limit : ℕ
  pub query_timeout : ℕ

abbrev pub unresolved : Resolved
unresolved = record {
  disabled = λ key. false;
  enabled = λ key. false;
  row_limit = 0;
  query_timeout = 0;
}

-- What the closure `apply` does with the two maps.
unfoldable pub toggle : PolicyOverride → Resolved → Resolved
toggle item resolved =
    if item.enabled
    then record resolved {
      disabled = set_at resolved.disabled item.key false;
      enabled = set_at resolved.enabled item.key true;
    }
    else record resolved {
      disabled = set_at resolved.disabled item.key true;
      enabled = set_at resolved.enabled item.key false;
    }

abbrev config_number : Option Bytes → Option ℤ
config_number none = none
config_number (some config) = some (atoi (trim_space config)).0

-- What the closure returns for the limit or the timeout, the key `name` of which is given: the
-- value, if there is one; -1 otherwise.
unfoldable pub limit_value : String → PolicyOverride → ℤ
unfolding bytes_eq atoi trim_space
limit_value name item =
    if not (is_word item.key name)
    then negsuc 0
    else if not item.enabled
    then pos 0
    else elim (config_number item.config) [ none ↦ negsuc 0 | some value ↦ value ]

-- `apply` and the assignment of its results.
unfoldable pub apply_override : PolicyOverride → Resolved → Resolved
apply_override item resolved =
    let toggled = toggle item resolved in
    elim (natural (limit_value "limit_rows" item)) [
      | some rows ↦ record toggled { row_limit = rows }
      | none ↦ elim (natural (limit_value "query_timeout_seconds" item)) [
        | some timeout ↦ record toggled { query_timeout = timeout }
        | none ↦ toggled
      ]
    ]

unfoldable pub apply_overrides : List PolicyOverride → Resolved → Resolved
apply_overrides [] resolved = resolved
apply_overrides (item ∷ items) resolved = apply_overrides items (apply_override item resolved)

-- `override{key, item.Enabled, item.Config}`.
abbrev pub bare : PolicyOverride → PolicyOverride
unfolding cut
bare item = record item { key = (cut item.key b'@').0 }

abbrev scope_of : PolicyOverride → Bytes
unfolding cut
scope_of item = (cut item.key b'@').1

-- The key has a scope behind an @.
unfoldable pub is_scoped : PolicyOverride → Bool
unfolding cut
is_scoped item = (cut item.key b'@').2

unfoldable pub for_connection : Bytes → PolicyOverride → Bool
unfolding bytes_eq cut
for_connection connection_id item = is_scoped item && bytes_eq (scope_of item) connection_id

unfoldable pub for_role : Runtime → Bytes → PolicyOverride → Bool
unfolding has_prefix trim_prefix cut
for_role rt role item =
    is_scoped item
    && has_prefix (scope_of item) (codes "role:")
    && equal_fold rt (trim_prefix (scope_of item) (codes "role:")) role

-- The overrides that pass a test, without their scopes.
unfoldable pub chosen : (PolicyOverride → Bool) → List PolicyOverride → List PolicyOverride
unfolding cut
chosen test [] = []
chosen test (item ∷ items) =
    let rest = chosen test items in if test item then bare item ∷ rest else rest

-- The first loop: it applies what has no scope, and collects the rest for the two lists.
unfoldable pub first_pass :
    Runtime
    → Bytes
    → Bytes
    → List PolicyOverride
    → Resolved
    → List PolicyOverride
    → List PolicyOverride
    → Resolved × List PolicyOverride × List PolicyOverride
unfolding cut
first_pass rt connection_id role [] resolved connections roles = (resolved, connections, roles)
first_pass rt connection_id role (item ∷ items) resolved connections roles =
    if not (is_scoped item)
    then first_pass rt connection_id role items (apply_override (bare item) resolved) connections
        roles
    else first_pass rt connection_id role items resolved
        (if for_connection connection_id item then connections ++ (bare item ∷ []) else connections)
        (if for_role rt role item then roles ++ (bare item ∷ []) else roles)

-- `resolvePolicies`, given the role of the caller and the id of the connection.
unfoldable pub resolve_policies : Runtime → Bytes → Bytes → List PolicyOverride → Resolved
unfolding first_pass apply_overrides
resolve_policies rt connection_id role items =
    let (resolved, connections, roles) = first_pass rt connection_id role items unresolved [] [] in
    apply_overrides (connections ++ roles) resolved
