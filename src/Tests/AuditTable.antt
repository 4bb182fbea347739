-- ===== src/Tests/AuditTable.antt =====
-- A database that is the list of its audit rows, and two entries of one organization.
use rowset_studio.Common.{
  pos, ◌≡◌, refl, sym, ◌∙◌, ap, true, false, none, some, List, [], ◌∷◌, ◌++◌, Bytes, bytes_eq,
  codes, inl, inr, length, Bool-cases,
}
use mathlib.Core.List.{append-nil, append_assoc}
use rowset_studio.Audit.Entry.{AuditLog, Row, text}
use rowset_studio.Audit.Database.{Database, Laws, of_org, scanned, last_hash}

abbrev pub selected : List Row → List Row
selected [] = []
selected (row ∷ rows) = scanned row ++ selected rows

-- The table in the order of insertion; the head is what the scan reads last.
abbrev pub table : Database
table = record {
  Db = List Row;
  begin = λ db. true;
  commit = λ db. true;
  head = λ db org. some (last_hash none (of_org org (selected db)));
  insert_audit = λ db row. some (db ++ (row ∷ []));
  insert_history = λ db history. some db;
  scan = selected;
}

of_org-append :
    (org : Bytes) (rows later : List Row)
    → of_org org (rows ++ later) ≡ of_org org rows ++ of_org org later
unfolding of_org
of_org-append org [] later = refl
of_org-append org (row ∷ rows) later = elim (Bool-cases (bytes_eq (text row.org_id) org)) [
  | inl e ↦ rw e (ap (◌∷◌ row) (of_org-append org rows later))
  | inr e ↦ rw e (of_org-append org rows later)
]

selected-append :
    (rows : List Row) (row : Row) → selected (rows ++ (row ∷ [])) ≡ selected rows ++ scanned row
selected-append [] row = append-nil (scanned row)
selected-append (r ∷ rows) row =
    ap (λ rs. scanned r ++ rs) (selected-append rows row)
    ∙ sym (append_assoc (scanned r) (selected rows) (scanned row))

pub some-injective : {A : Type 0} {a b : A} → some a ≡ some b → a ≡ b
some-injective e = cc

pub table-Laws : Laws table
table-Laws = record {
  head-scan = λ db org answer e. ap text (sym (some-injective e));
  insert_audit-scan = λ db row after org e.
      ap (λ d. of_org org (selected d)) (sym (some-injective e))
      ∙ ap (of_org org) (selected-append db row)
      ∙ of_org-append org (selected db) (scanned row);
  insert_history-scan = λ db history after e. ap selected (sym (some-injective e));
}

-- An entry of the organization `o`.
abbrev pub entry : Bytes → AuditLog
entry id = record {
  id = id;
  user_id = codes "u";
  org_id = codes "o";
  role = [];
  connection_id = codes "c";
  sql = codes "select 1";
  normalized_sql = [];
  query_hash = [];
  client_type = [];
  client_ip = [];
  user_agent = [];
  started_at = codes "now";
  duration_ms = pos 3;
  rows_returned = pos 1;
  rows_affected = pos 0;
  rows_returned_set = true;
  rows_affected_set = false;
  policy_decision = codes "allow";
  policy_reason = [];
  policy_id = [];
  reference = [];
  error_message = [];
  created_at = [];
  previous_hash = [];
  entry_hash = [];
  hash_version = pos 0;
}

-- A digest that can be computed here: the length of the text.
abbrev pub digest : Bytes → Bytes
digest s = length s ∷ []

abbrev pub two_entries : List AuditLog
two_entries = entry (codes "1") ∷ entry (codes "2") ∷ []
