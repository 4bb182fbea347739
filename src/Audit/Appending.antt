-- ===== src/Audit/Appending.antt =====
-- `WriteActivity` keeps the chain of every organization intact.
use rowset_studio.Common.{
  ◌≡◌, ◌∙◌, ap, subst, Bool, false, List, [], ◌∷◌, Option, none, some, Bytes, arith, inl, inr,
  Option-cases, All,
}
use rowset_studio.Audit.Entry.{AuditLog, row_of, prepare_audit}
use rowset_studio.Audit.Database.{Database, Laws, QueryHistory}
use rowset_studio.Audit.Verify.{verify_audit_chain}
use rowset_studio.Audit.Write.{
  previous_of, record_head, write_audits, write_histories, transaction, write_activity, outcome,
}
use rowset_studio.Audit.Chains.{reported, verify_audit_chain-reported}
use rowset_studio.Audit.Inserting.{
  Referable, Intact, Heads, previous_of-head, insert-Intact, insert-Heads,
}

module _ (digest : Bytes → Bytes) (reference_column : Bool) (d : Database) (laws : Laws d) where
  write_audits-Intact :
      (heads : Bytes → Option Bytes) (audits : List AuditLog) (db after : d.Db)
      → Heads digest reference_column d laws heads db
      → Intact digest reference_column d laws db
      → All (Referable reference_column) audits
      → write_audits digest reference_column d heads audits db ≡ some after
      → Intact digest reference_column d laws after
  unfolding write_audits
  write_audits-Intact heads [] db after held h r e =
      subst (Intact digest reference_column d laws) (ground (arith, e)) h
  write_audits-Intact heads (item ∷ rest) db after held h r e =
      elim (Option-cases (previous_of digest reference_column d heads item.org_id db)) [
        | inl n ↦ absurd (ground (arith, n, e))
        | inr (previous, s) ↦
            let prepared = prepare_audit digest previous item in
            let continues =
              previous_of-head digest reference_column d laws heads db item previous held s in
            elim (Option-cases (d.insert_audit db (row_of reference_column prepared))) [
              | inl n ↦ absurd (ground (arith, s, n, e))
              | inr (next, i) ↦
                  write_audits-Intact (record_head digest reference_column d heads prepared) rest
                    next after
                    (insert-Heads digest reference_column d laws heads db next prepared held i)
                    (insert-Intact digest reference_column d laws db next item previous h r.0
                      continues i)
                    r.1 (ground (arith, s, i, e))
            ]
      ]

  write_histories-scan :
      (histories : List QueryHistory) (db after : d.Db)
      → write_histories digest reference_column d histories db ≡ some after
      → d.scan after ≡ d.scan db
  unfolding write_histories
  write_histories-scan [] db after e = ap (λ x. d.scan x) (ground (arith, e))
  write_histories-scan (history ∷ rest) db after e =
      elim (Option-cases (d.insert_history db history)) [
        | inl n ↦ absurd (ground (arith, n, e))
        | inr (next, i) ↦
            write_histories-scan rest next after (ground (arith, i, e))
            ∙ laws.insert_history-scan db history next i
      ]

  transaction-Intact :
      (audits : List AuditLog) (histories : List QueryHistory) (db after : d.Db)
      → Intact digest reference_column d laws db
      → All (Referable reference_column) audits
      → transaction digest reference_column d audits histories db ≡ some after
      → Intact digest reference_column d laws after
  unfolding transaction
  transaction-Intact audits histories db after h r e =
      elim (Option-cases (write_audits digest reference_column d (λ org. none) audits db)) [
        | inl n ↦ absurd (ground (arith, n, e))
        | inr (written, w) ↦
            elim (Option-cases (write_histories digest reference_column d histories written)) [
              | inl n ↦ absurd (ground (arith, w, n, e))
              | inr (next, i) ↦ λ org.
                  let same : d.scan after ≡ d.scan written =
                    ap (λ x. d.scan x) (ground (arith, w, i, e))
                    ∙ write_histories-scan histories written next i in
                  rw same (
                    write_audits-Intact (λ o. none) audits db written
                      (λ o head s. absurd (ground (arith, s))) h r w org)
            ]
      ]

  outcome-Intact :
      (audits : List AuditLog) (histories : List QueryHistory) (db : d.Db)
      → Intact digest reference_column d laws db
      → All (Referable reference_column) audits
      → Intact digest reference_column d laws
          (outcome digest reference_column d db
            (transaction digest reference_column d audits histories db)).0
  outcome-Intact audits histories db h r =
      elim (Option-cases (transaction digest reference_column d audits histories db)) [
        | inl n ↦ rw n h
        | inr (after, e) ↦ rw e (transaction-Intact audits histories db after h r e)
      ]

  write_activity-Intact :
      (audits : List AuditLog) (histories : List QueryHistory) (db : d.Db)
      → Intact digest reference_column d laws db
      → All (Referable reference_column) audits
      → Intact digest reference_column d laws
          (write_activity digest reference_column d audits histories db).0
  unfolding write_activity
  write_activity-Intact [] [] db h r = h
  write_activity-Intact [] (history ∷ histories) db h r =
      outcome-Intact [] (history ∷ histories) db h r
  write_activity-Intact (item ∷ audits) histories db h r =
      outcome-Intact (item ∷ audits) histories db h r

  -- If `VerifyAuditChain` finds no broken chain in a database, it finds none in the database that
  -- `WriteActivity` leaves, whether that commits or fails at any statement: for every SQLite that
  -- satisfies the laws, and entries whose reference is stored or empty.
  pub write_activity-verify_audit_chain :
      (audits : List AuditLog) (histories : List QueryHistory) (db : d.Db)
      → All (Referable reference_column) audits
      → ((org : Bytes)
          → reported org (verify_audit_chain digest reference_column (d.scan db)).breaks ≡ false)
      → (org : Bytes)
      → reported org
          (verify_audit_chain digest reference_column
            (d.scan (write_activity digest reference_column d audits histories db).0)).breaks
        ≡ false
  write_activity-verify_audit_chain audits histories db r sound org =
      let after = (write_activity digest reference_column d audits histories db).0 in
      let before : Intact digest reference_column d laws db = λ o.
        ground
          (arith, sound o, (verify_audit_chain-reported digest reference_column (d.scan db) o).0) in
      ground (
        arith,
        write_activity-Intact audits histories db before r org,
        (verify_audit_chain-reported digest reference_column (d.scan after) org).0,
      )
