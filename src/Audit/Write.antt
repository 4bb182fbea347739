-- ===== src/Audit/Write.antt =====
-- `WriteActivity` of rowset-core/internal/store/audit.go over a database.
use rowset_studio.Common.{
  set_at, Bool, true, false, not, Option, none, some, List, [], ◌∷◌, Bytes, if◌then◌else◌,
}
use rowset_studio.Audit.Entry.{AuditLog, text, prepare_audit, row_of}
use rowset_studio.Audit.Database.{Database, QueryHistory}

abbrev pub is_empty : Bytes → Bool
is_empty [] = true
is_empty (c ∷ cs) = false

module _ (digest : Bytes → Bytes) (reference_column : Bool) (d : Database) where
  -- The hash that an entry of the organization continues; `none` if the query for it fails.
  unfoldable pub previous_of : (Bytes → Option Bytes) → Bytes → d.Db → Option Bytes
  previous_of heads org db = if is_empty org then some [] else elim (heads org) [
    | some head ↦ some head
    | none ↦ elim (d.head db org) [ none ↦ none | some answer ↦ some (text answer) ]
  ]

  unfoldable pub record_head : (Bytes → Option Bytes) → AuditLog → Bytes → Option Bytes
  record_head heads item =
      if is_empty item.org_id then heads else set_at heads item.org_id (some item.entry_hash)

  -- The loop over the audit entries.
  unfoldable pub write_audits : (Bytes → Option Bytes) → List AuditLog → d.Db → Option d.Db
  write_audits heads [] db = some db
  write_audits heads (item ∷ rest) db = elim (previous_of heads item.org_id db) [
    | none ↦ none
    | some previous ↦
        let prepared = prepare_audit digest previous item in
        elim (d.insert_audit db (row_of reference_column prepared)) [
          | none ↦ none
          | some after ↦ write_audits (record_head heads prepared) rest after
        ]
  ]

  unfoldable pub write_histories : List QueryHistory → d.Db → Option d.Db
  write_histories [] db = some db
  write_histories (history ∷ rest) db = elim (d.insert_history db history) [
    | none ↦ none
    | some after ↦ write_histories rest after
  ]

  -- The statements of the transaction, and its COMMIT.
  unfoldable pub transaction : List AuditLog → List QueryHistory → d.Db → Option d.Db
  transaction audits histories db =
      if not (d.begin db) then none else elim (write_audits (λ org. none) audits db) [
        | none ↦ none
        | some written ↦ elim (write_histories histories written) [
          | none ↦ none
          | some after ↦ if d.commit after then some after else none
        ]
      ]

  -- What a transaction leaves: one that does not commit is rolled back.
  abbrev pub outcome : d.Db → Option d.Db → d.Db × Bool
  outcome db none = (db, false)
  outcome db (some after) = (after, true)

  -- `WriteActivity`: the database behind it, and whether it returns without an error.
  unfoldable pub write_activity : List AuditLog → List QueryHistory → d.Db → d.Db × Bool
  write_activity [] [] db = (db, true)
  write_activity audits histories db = outcome db (transaction audits histories db)
