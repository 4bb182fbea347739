-- ===== src/Audit/Inserting.antt =====
-- One entry more in an intact database: rowset-core/internal/store/audit.go.
use rowset_studio.Common.{
  set_at, ◌≡◌, ◌∙◌, refl, ap, subst, Bool, true, not, ◌&&◌, List, [], ◌∷◌, ◌++◌, Option, none, some,
  Bytes, bytes_eq, bytes_eq_iff, arith, if◌then◌else◌, ◌⊎◌, inl, inr, Bool-cases, Option-cases,
  and-parts,
}
use mathlib.Core.List.{append-nil}
use rowset_studio.Audit.Entry.{AuditLog, Row, text, null_text, row_of, prepare_audit}
use rowset_studio.Audit.Database.{Database, Laws, of_org, scanned, last_hash}
use rowset_studio.Audit.Verify.{follows}
use rowset_studio.Audit.Write.{previous_of, record_head, is_empty}
use rowset_studio.Audit.Chains.{intact}
use rowset_studio.Audit.Rows.{prepare_audit-follows}

module _ (digest : Bytes → Bytes) (reference_column : Bool) where
  intact-append :
      (previous : Option Bytes) (rows : List Row) (row : Row)
      → intact digest reference_column (text previous) rows ≡ true
      → follows digest reference_column (text (last_hash previous rows)) row ≡ true
      → intact digest reference_column (text previous) (rows ++ (row ∷ [])) ≡ true
  unfolding last_hash
  intact-append previous [] row h f = ground (arith, f)
  intact-append previous (r ∷ rows) row h f =
      let parts =
        and-parts (follows digest reference_column (text previous) r)
          (intact digest reference_column (text r.entry_hash) rows) h in
      rw (parts.0, intact-append r.entry_hash rows row parts.1 f) refl

last_hash-append :
    (previous : Option Bytes) (rows : List Row) (row : Row)
    → last_hash previous (rows ++ (row ∷ [])) ≡ row.entry_hash
unfolding last_hash
last_hash-append previous [] row = refl
last_hash-append previous (r ∷ rows) row = last_hash-append r.entry_hash rows row

-- A column holds the reference, or there is none to hold.
abbrev pub Referable : Bool → AuditLog → Type 0
Referable reference_column item = (reference_column ≡ true) ⊎ (item.reference ≡ [])

-- The entry joins the chain of the organization.
abbrev joins : Bytes → Bytes → Bool
joins org own = not (is_empty own) && bytes_eq own org

of_org-scanned :
    (org own hash : Bytes) (row : Row)
    → row.org_id ≡ null_text own
    → row.entry_hash ≡ some hash
    → of_org org (scanned row) ≡ (if joins org own then row ∷ [] else [])
unfolding of_org scanned null_text text
of_org-scanned org [] hash row o h = ground (arith, o, h)
of_org-scanned org (c ∷ own) hash row o h = ground (arith, o, h)

of_org-scanned-row_of :
    (reference_column : Bool) (org : Bytes) (item : AuditLog)
    → of_org org (scanned (row_of reference_column item))
      ≡ (if joins org item.org_id then row_of reference_column item ∷ [] else [])
unfolding row_of
of_org-scanned-row_of reference_column org item =
    of_org-scanned org item.org_id item.entry_hash (row_of reference_column item) refl refl

joins-own : (org own : Bytes) → joins org own ≡ true → own ≡ org
joins-own org own h = ground (arith, bytes_eq_iff own org, h)

module _ (digest : Bytes → Bytes) (reference_column : Bool) (d : Database) (laws : Laws d) where
  -- The chain of each organization, as the scan reads it.
  abbrev pub Intact : d.Db → Type 0
  Intact db = (org : Bytes) → intact digest reference_column [] (of_org org (d.scan db)) ≡ true

  -- What the memory of the loop says of the heads is what the scan reads last.
  abbrev pub Heads : (Bytes → Option Bytes) → d.Db → Type 0
  Heads heads db =
      (org head : Bytes)
      → heads org ≡ some head
      → head ≡ text (last_hash none (of_org org (d.scan db)))

  pub previous_of-head :
      (heads : Bytes → Option Bytes) (db : d.Db) (item : AuditLog) (previous : Bytes)
      → Heads heads db
      → previous_of digest reference_column d heads item.org_id db ≡ some previous
      → (item.org_id ≡ []) ⊎ (previous ≡ text (last_hash none (of_org item.org_id (d.scan db))))
  unfolding previous_of
  previous_of-head heads db item previous held e = elim (Bool-cases (is_empty item.org_id)) [
    | inl n ↦ inl (ground (arith, n))
    | inr n ↦ elim (Option-cases (heads item.org_id)) [
      | inr (head, s) ↦ inr (ground (arith, n, s, held item.org_id head s))
      | inl s ↦ elim (Option-cases (d.head db item.org_id)) [
        | inl f ↦ absurd (ground (arith, n, s, f, e))
        | inr (answer, f) ↦ inr (ground (arith, n, s, f, e, laws.head-scan db item.org_id answer f))
      ]
    ]
  ]

  -- Where the entry of an organization continues its chain.
  abbrev Continues : d.Db → AuditLog → Bytes → Type 0
  Continues db item previous =
      (item.org_id ≡ []) ⊎ (previous ≡ text (last_hash none (of_org item.org_id (d.scan db))))

  pub rows_after :
      (db after : d.Db) (item : AuditLog) (org : Bytes)
      → d.insert_audit db (row_of reference_column item) ≡ some after
      → of_org org (d.scan after)
        ≡ of_org org (d.scan db)
          ++ (if joins org item.org_id then row_of reference_column item ∷ [] else [])
  rows_after db after item org e =
      laws.insert_audit-scan db (row_of reference_column item) after org e
      ∙ ap (λ rows. of_org org (d.scan db) ++ rows)
          (of_org-scanned-row_of reference_column org item)

  prepared-follows :
      (db : d.Db) (item : AuditLog) (previous org : Bytes)
      → Referable reference_column item
      → Continues db item previous
      → joins org item.org_id ≡ true
      → follows digest reference_column
          (text (last_hash none (of_org org (d.scan db))))
          (row_of reference_column (prepare_audit digest previous item))
        ≡ true
  prepared-follows db item previous org r (inl e) y = absurd (ground (arith, e, y))
  prepared-follows db item previous org r (inr e) y =
      let row = row_of reference_column (prepare_audit digest previous item) in
      let fits = (λ (hash : Bytes). follows digest reference_column hash row ≡ true) in
      subst (λ o. fits (text (last_hash none (of_org o (d.scan db))))) (joins-own org item.org_id y)
        (subst fits e (prepare_audit-follows digest reference_column previous item r))

  pub insert-Intact :
      (db after : d.Db) (item : AuditLog) (previous : Bytes)
      → Intact db
      → Referable reference_column item
      → Continues db item previous
      → d.insert_audit db (row_of reference_column (prepare_audit digest previous item))
        ≡ some after
      → Intact after
  unfolding prepare_audit text
  insert-Intact db after item previous h r c e org =
      let prepared = prepare_audit digest previous item in
      let rows = rows_after db after prepared org e in
      elim (Bool-cases (joins org item.org_id)) [
        | inr n ↦ rw (rows, n, append-nil (of_org org (d.scan db))) (h org)
        | inl y ↦
            rw (rows, y)
              (intact-append digest reference_column none (of_org org (d.scan db))
                (row_of reference_column prepared) (h org)
                (prepared-follows db item previous org r c y))
      ]

  pub insert-Heads :
      (heads : Bytes → Option Bytes) (db after : d.Db) (item : AuditLog)
      → Heads heads db
      → d.insert_audit db (row_of reference_column item) ≡ some after
      → Heads (record_head digest reference_column d heads item) after
  unfolding record_head set_at row_of text
  insert-Heads heads db after item held e org head s =
      let rows = rows_after db after item org e in
      let scan = of_org org (d.scan db) in
      elim (Bool-cases (joins org item.org_id)) [
        | inr n ↦ rw (rows, n, append-nil scan) (held org head (ground (arith, s, n)))
        | inl y ↦
            rw (rows, y, last_hash-append none scan (row_of reference_column item))
              (ground (arith, s, y))
      ]
