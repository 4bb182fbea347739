-- ===== src/Recording/Rows.antt =====
-- What `WriteActivity` of rowset-core/internal/store/audit.go adds to the rows of each organization.
use rowset_studio.Common.{
  ◌≡◌, refl, sym, subst, ap, ◌∙◌, Bool, true, Option, none, some, List, [], ◌∷◌, ◌++◌, Bytes,
  bytes_eq_iff, Option-cases, Bool-cases, inl, inr, ◌⊎◌, Member, Member-append, All, arith,
}
use rowset_studio.Activity.Order.{append-append, append-nil}
use rowset_studio.Audit.Entry.{AuditLog, Row, prepare_audit, row_of}
use rowset_studio.Audit.Database.{Database, Laws, QueryHistory, of_org}
use rowset_studio.Audit.Write.{
  is_empty, previous_of, record_head, write_audits, write_histories, transaction, outcome,
  write_activity,
}
use rowset_studio.Audit.Inserting.{rows_after}

Member-behind : {A : Type 0} (x : A) (xs ys : List A) → Member x ys → Member x (xs ++ ys)
Member-behind x [] ys m = m
Member-behind x (y ∷ xs) ys m = inr (Member-behind x xs ys m)

pub All-map :
    {A : Type 0} {P Q : A → Type 0} (xs : List A) → ((x : A) → P x → Q x) → All P xs → All Q xs
All-map [] f h = tt
All-map (x ∷ xs) f h = (f x h.0, All-map xs f h.1)

module _ (digest : Bytes → Bytes) (reference_column : Bool) (d : Database) (laws : Laws d) where
  -- The scan of each organization is longer, and the same as far as it went.
  abbrev pub Grows : d.Db → d.Db → Type 0
  Grows db after =
      (org : Bytes)
      → (more : List Row) × (of_org org (d.scan after) ≡ of_org org (d.scan db) ++ more)

  -- The entry stands in the scan of its organization, in a row that continues some hash.
  abbrev pub Recorded : d.Db → AuditLog → Type 0
  Recorded db item =
      (item.org_id ≡ [])
      ⊎ ((previous : Bytes) × Member (row_of reference_column (prepare_audit digest previous item))
            (of_org item.org_id (d.scan db)))

  pub Grows-refl : (db after : d.Db) → after ≡ db → Grows db after
  Grows-refl db after e org =
      ([], ap (λ x. of_org org (d.scan x)) e ∙ sym (append-nil (of_org org (d.scan db))))

  pub Grows-trans : (db mid after : d.Db) → Grows db mid → Grows mid after → Grows db after
  Grows-trans db mid after g h org =
      let (first, e) = g org in
      let (second, f) = h org in
      (
        first ++ second,
        f ∙ (ap (λ rows. rows ++ second) e ∙ append-append (of_org org (d.scan db)) first second),
      )

  pub Recorded-grows :
      (db after : d.Db) (item : AuditLog) → Grows db after → Recorded db item → Recorded after item
  Recorded-grows db after item g (inl e) = inl e
  Recorded-grows db after item g (inr (previous, m)) =
      let row = row_of reference_column (prepare_audit digest previous item) in
      let (more, e) = g item.org_id in
      inr (
        previous,
        subst (Member row) (sym e) (Member-append row (of_org item.org_id (d.scan db)) more m),
      )

  insert-Grows :
      (db after : d.Db) (item : AuditLog)
      → d.insert_audit db (row_of reference_column item) ≡ some after
      → Grows db after
  insert-Grows db after item e org =
      (_, rows_after digest reference_column d laws db after item org e)

  insert-Recorded :
      (db after : d.Db) (item : AuditLog) (previous : Bytes)
      → d.insert_audit db (row_of reference_column (prepare_audit digest previous item))
        ≡ some after
      → Recorded after item
  unfolding prepare_audit
  insert-Recorded db after item previous e = elim (Bool-cases (is_empty item.org_id)) [
    | inl n ↦ inl (ground (arith, n))
    | inr n ↦
        let row = row_of reference_column (prepare_audit digest previous item) in
        let rows =
          rows_after digest reference_column d laws db after (prepare_audit digest previous item)
            item.org_id e in
        inr (
          previous,
          subst (Member row) (sym rows) (
              Member-behind row (of_org item.org_id (d.scan db)) _
                (rw (n, (bytes_eq_iff item.org_id item.org_id).1 refl) (inl refl))),
        )
  ]

  -- What the loop over the audit entries has stored.
  write_audits-Recorded :
      (heads : Bytes → Option Bytes) (items : List AuditLog) (db after : d.Db)
      → write_audits digest reference_column d heads items db ≡ some after
      → Grows db after × All (Recorded after) items
  unfolding write_audits
  write_audits-Recorded heads [] db after e = (Grows-refl db after (ground (arith, e)), tt)
  write_audits-Recorded heads (item ∷ rest) db after e =
      elim (Option-cases (previous_of digest reference_column d heads item.org_id db)) [
        | inl n ↦ absurd (ground (arith, n, e))
        | inr (previous, s) ↦
            let prepared = prepare_audit digest previous item in
            elim (Option-cases (d.insert_audit db (row_of reference_column prepared))) [
              | inl n ↦ absurd (ground (arith, s, n, e))
              | inr (mid, i) ↦
                  let (grows, recorded) =
                    write_audits-Recorded (record_head digest reference_column d heads prepared)
                      rest mid after (ground (arith, s, i, e)) in
                  (
                    Grows-trans db mid after (insert-Grows db mid prepared i) grows,
                    (
                      Recorded-grows mid after item grows (insert-Recorded db mid item previous i),
                      recorded,
                    ),
                  )
            ]
      ]

  pub same_scan-Grows : (db after : d.Db) → d.scan after ≡ d.scan db → Grows db after
  same_scan-Grows db after e org =
      ([], ap (of_org org) e ∙ sym (append-nil (of_org org (d.scan db))))

  write_histories-Grows :
      (histories : List QueryHistory) (db after : d.Db)
      → write_histories digest reference_column d histories db ≡ some after
      → Grows db after
  unfolding write_histories
  write_histories-Grows [] db after e = Grows-refl db after (ground (arith, e))
  write_histories-Grows (item ∷ rest) db after e = elim (Option-cases (d.insert_history db item)) [
    | inl n ↦ absurd (ground (arith, n, e))
    | inr (mid, i) ↦
        Grows-trans db mid after (same_scan-Grows db mid (laws.insert_history-scan db item mid i))
          (write_histories-Grows rest mid after (ground (arith, i, e)))
  ]

  transaction-Recorded :
      (audits : List AuditLog) (histories : List QueryHistory) (db after : d.Db)
      → transaction digest reference_column d audits histories db ≡ some after
      → Grows db after × All (Recorded after) audits
  unfolding transaction
  transaction-Recorded audits histories db after e = elim (Bool-cases (d.begin db)) [
    | inr b ↦ absurd (ground (arith, b, e))
    | inl b ↦ elim (Option-cases (write_audits digest reference_column d (λ org. none) audits db)) [
      | inl n ↦ absurd (ground (arith, b, n, e))
      | inr (written, w) ↦
          elim (Option-cases (write_histories digest reference_column d histories written)) [
            | inl n ↦ absurd (ground (arith, b, w, n, e))
            | inr (next, i) ↦
                let same : next ≡ after = ground (arith, b, w, i, e) in
                let (first, recorded) = write_audits-Recorded (λ org. none) audits db written w in
                let second =
                  subst (Grows written) same (write_histories-Grows histories written next i) in
                (
                  Grows-trans db written after first second,
                  All-map audits (λ item r. Recorded-grows written after item second r) recorded,
                )
          ]
    ]
  ]

  committed :
      (audits : List AuditLog) (histories : List QueryHistory) (db after : d.Db)
      → outcome digest reference_column d db
          (transaction digest reference_column d audits histories db)
        ≡ (after, true)
      → Grows db after × All (Recorded after) audits
  committed audits histories db after e =
      elim (Option-cases (transaction digest reference_column d audits histories db)) [
        | inl n ↦ absurd (ground (arith, n, e))
        | inr (next, t) ↦ transaction-Recorded audits histories db after (ground (arith, t, e))
      ]

  outcome-Grows :
      (audits : List AuditLog) (histories : List QueryHistory) (db : d.Db)
      → Grows db
          (outcome digest reference_column d db
            (transaction digest reference_column d audits histories db)).0
  outcome-Grows audits histories db =
      elim (Option-cases (transaction digest reference_column d audits histories db)) [
        | inl n ↦ rw n (Grows-refl db db refl)
        | inr (after, t) ↦ rw t (transaction-Recorded audits histories db after t).0
      ]

  -- A batch that is stored has every entry in the scan of its organization.
  pub write_activity-Recorded :
      (audits : List AuditLog) (histories : List QueryHistory) (db after : d.Db)
      → write_activity digest reference_column d audits histories db ≡ (after, true)
      → Grows db after × All (Recorded after) audits
  unfolding write_activity
  write_activity-Recorded [] [] db after e = (Grows-refl db after (ground (arith, e)), tt)
  write_activity-Recorded [] (h ∷ histories) db after e = committed [] (h ∷ histories) db after e
  write_activity-Recorded (a ∷ audits) histories db after e =
      committed (a ∷ audits) histories db after e

  pub write_activity-Grows :
      (audits : List AuditLog) (histories : List QueryHistory) (db : d.Db)
      → Grows db (write_activity digest reference_column d audits histories db).0
  unfolding write_activity
  write_activity-Grows [] [] db = Grows-refl db db refl
  write_activity-Grows [] (h ∷ histories) db = outcome-Grows [] (h ∷ histories) db
  write_activity-Grows (a ∷ audits) histories db = outcome-Grows (a ∷ audits) histories db
