-- ===== src/Audit/Entry.antt =====
-- Audit entries, their hashes, and how the columns of a row hold them: `auditHash`, `PrepareAudit`,
-- `VerifyPreparedAudit`, `optionalNumber`, `nullText` and `nullableNumber` of
-- rowset-core/internal/store/audit.go. SHA-256 in hexadecimal is the parameter `digest`.
use rowset_studio.Common.{
  ℤ, pos, format_int, is_number, Bool, true, false, ◌&&◌, ◌||◌, Option, none, some, List, [], ◌∷◌,
  ◌++◌, Bytes, codes, bytes_eq, join, if◌then◌else◌,
}

pub record AuditLog : Type 0 where
  pub id : Bytes
  pub user_id : Bytes
  pub org_id : Bytes
  pub role : Bytes
  pub connection_id : Bytes
  pub sql : Bytes
  pub normalized_sql : Bytes
  pub query_hash : Bytes
  pub client_type : Bytes
  pub client_ip : Bytes
  pub user_agent : Bytes
  pub started_at : Bytes
  pub duration_ms : ℤ
  pub rows_returned : ℤ
  pub rows_affected : ℤ
  pub rows_returned_set : Bool
  pub rows_affected_set : Bool
  pub policy_decision : Bytes
  pub policy_reason : Bytes
  pub policy_id : Bytes
  pub reference : Bytes
  pub error_message : Bytes
  pub created_at : Bytes
  pub previous_hash : Bytes
  pub entry_hash : Bytes
  pub hash_version : ℤ

unfoldable pub optional_number : ℤ → Bool → Bytes
optional_number value set = if set then format_int value else []

-- What `auditHash` joins, in its order.
unfoldable pub hashed_values : ℤ → Bytes → AuditLog → List Bytes
hashed_values version previous item =
    let values =
      previous ∷ item.id ∷ item.user_id ∷ item.org_id ∷ item.connection_id ∷ item.query_hash
      ∷ item.started_at ∷ item.policy_decision ∷ item.reference ∷ [] in
    if is_number version 2
    then values
      ++ (item.sql
          ∷ item.error_message
          ∷ item.client_ip
          ∷ optional_number item.rows_returned item.rows_returned_set
          ∷ optional_number item.rows_affected item.rows_affected_set
          ∷ [])
    else values

module _ (digest : Bytes → Bytes) where
  unfoldable pub audit_hash : ℤ → Bytes → AuditLog → Bytes
  audit_hash version previous item = digest (join (codes "|") (hashed_values version previous item))

  unfoldable pub prepare_audit : Bytes → AuditLog → AuditLog
  prepare_audit previous item = record item {
    previous_hash = previous;
    hash_version = pos 2;
    entry_hash = audit_hash (pos 2) previous item;
  }

  unfoldable pub verify_prepared_audit : ℤ → Bytes → Bytes → AuditLog → Bool
  verify_prepared_audit version previous expected item =
      (is_number version 1 || is_number version 2)
      && bytes_eq (audit_hash version previous item) expected

-- A row of audit_logs; `none` is NULL. `reference` is the column `auditReferenceColumn`.
pub record Row : Type 0 where
  pub id : Bytes
  pub user_id : Option Bytes
  pub org_id : Option Bytes
  pub role : Option Bytes
  pub connection_id : Option Bytes
  pub sql : Option Bytes
  pub normalized_sql : Option Bytes
  pub query_hash : Option Bytes
  pub client_type : Option Bytes
  pub client_ip : Option Bytes
  pub user_agent : Option Bytes
  pub started_at : Option Bytes
  pub duration_ms : ℤ
  pub rows_returned : Option ℤ
  pub rows_affected : Option ℤ
  pub policy_decision : Option Bytes
  pub policy_reason : Option Bytes
  pub policy_id : Option Bytes
  pub error_message : Option Bytes
  pub created_at : Bytes
  pub prev_hash : Option Bytes
  pub entry_hash : Option Bytes
  pub hash_version : ℤ
  pub reference : Option Bytes

unfoldable pub null_text : Bytes → Option Bytes
null_text [] = none
null_text (c ∷ cs) = some (c ∷ cs)

unfoldable pub nullable_number : ℤ → Bool → Option ℤ
nullable_number value set = if set then some value else none

-- The arguments of the INSERT; the reference is stored if a column is configured for it.
unfoldable pub row_of : Bool → AuditLog → Row
row_of reference_column item = record {
  id = item.id;
  user_id = null_text item.user_id;
  org_id = null_text item.org_id;
  role = null_text item.role;
  connection_id = null_text item.connection_id;
  sql = null_text item.sql;
  normalized_sql = null_text item.normalized_sql;
  query_hash = null_text item.query_hash;
  client_type = null_text item.client_type;
  client_ip = null_text item.client_ip;
  user_agent = null_text item.user_agent;
  started_at = null_text item.started_at;
  duration_ms = item.duration_ms;
  rows_returned = nullable_number item.rows_returned item.rows_returned_set;
  rows_affected = nullable_number item.rows_affected item.rows_affected_set;
  policy_decision = null_text item.policy_decision;
  policy_reason = null_text item.policy_reason;
  policy_id = null_text item.policy_id;
  error_message = null_text item.error_message;
  created_at = item.created_at;
  prev_hash = null_text item.previous_hash;
  entry_hash = some item.entry_hash;
  hash_version = item.hash_version;
  reference = if reference_column then null_text item.reference else none;
}

-- `NullString.String`.
unfoldable pub text : Option Bytes → Bytes
text none = []
text (some s) = s

-- `NullInt64.Int64` and `NullInt64.Valid`.
unfoldable pub number : Option ℤ → ℤ
number none = pos 0
number (some n) = n

unfoldable pub is_set : Option ℤ → Bool
is_set none = false
is_set (some n) = true

-- The item that `VerifyAuditChain` scans from a row; what it does not read is the zero value.
unfoldable pub item_of : Bool → Row → AuditLog
item_of reference_column row = record {
  id = row.id;
  user_id = text row.user_id;
  org_id = text row.org_id;
  role = [];
  connection_id = text row.connection_id;
  sql = text row.sql;
  normalized_sql = [];
  query_hash = text row.query_hash;
  client_type = [];
  client_ip = text row.client_ip;
  user_agent = [];
  started_at = text row.started_at;
  duration_ms = pos 0;
  rows_returned = number row.rows_returned;
  rows_affected = number row.rows_affected;
  rows_returned_set = is_set row.rows_returned;
  rows_affected_set = is_set row.rows_affected;
  policy_decision = text row.policy_decision;
  policy_reason = [];
  policy_id = [];
  reference = if reference_column then text row.reference else [];
  error_message = text row.error_message;
  created_at = [];
  previous_hash = [];
  entry_hash = text row.entry_hash;
  hash_version = row.hash_version;
}
