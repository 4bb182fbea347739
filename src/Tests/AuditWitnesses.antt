-- ===== src/Tests/AuditWitnesses.antt =====
-- The theorems on the audit log, applied to a table that is a list of rows.
use rowset_studio.Common.{
  set_at, arith, ◌+◌, map, ◌≡◌, refl, true, false, not, List, [], ◌∷◌, Bytes, bytes_eq, codes, inr,
  length,
}
use rowset_studio.Audit.Entry.{
  AuditLog, Row, text, prepare_audit, audit_hash, hashed_values, row_of, null_text,
}
use rowset_studio.Audit.Database.{of_org, scanned, last_hash}
use rowset_studio.Audit.Verify.{check_rows, verify_audit_chain}
use rowset_studio.Audit.Write.{
  previous_of, record_head, write_audits, write_histories, transaction, write_activity,
}
use rowset_studio.Audit.Chains.{intact, reported, verify_audit_chain-reported}
use rowset_studio.Audit.Retention.{purged-reported}
use rowset_studio.Audit.Tampering.{hashed_text, Unbarred, same_head-hashed_text}
use rowset_studio.Tests.AuditTable.{table, table-Laws, entry, digest, two_entries}
use rowset_studio.Audit.Appending.{write_activity-verify_audit_chain}

abbrev written : List Row
written = (write_activity digest false table two_entries [] []).0

verify_audit_chain-reported_example :
    (reported (codes "o") (verify_audit_chain digest false written).breaks
      ≡ not (intact digest false [] (of_org (codes "o") written)))
    × ((verify_audit_chain digest false written).checked ≡ length written)
verify_audit_chain-reported_example = verify_audit_chain-reported digest false written (codes "o")

empty_verifies :
    (org : Bytes) → reported org (verify_audit_chain digest false (table.scan [])).breaks ≡ false
unfolding verify_audit_chain check_rows
empty_verifies org = refl

-- The run itself: two rows, chained, that verify.
length-written : length written ≡ 2
unfolding written write_activity write_audits transaction write_histories previous_of record_head
    set_at bytes_eq of_org last_hash scanned prepare_audit
length-written = refl

write_activity-verify_audit_chain_example :
    reported
      (codes "o")
      (verify_audit_chain digest false
        (table.scan (write_activity digest false table two_entries [] []).0)).breaks
    ≡ false
write_activity-verify_audit_chain_example =
    write_activity-verify_audit_chain digest false table table-Laws two_entries [] []
      (inr refl, (inr refl, tt)) empty_verifies (codes "o")

-- A digest that does not collide and never yields the separator.
abbrev shift : Bytes → Bytes
shift [] = []
shift (c ∷ cs) = (c + 125) ∷ shift cs

shift-collision_free : (a b : Bytes) → shift a ≡ shift b → a ≡ b
shift-collision_free [] [] e = refl
shift-collision_free [] (d ∷ b) e = absurd (ground (arith, e))
shift-collision_free (c ∷ a) [] e = absurd (ground (arith, e))
shift-collision_free (c ∷ a) (d ∷ b) e = ground (arith, e, shift-collision_free a b)

shift-Unbarred : (a : Bytes) → Unbarred (shift a)
shift-Unbarred [] = refl
shift-Unbarred (c ∷ a) = ground (arith, shift-Unbarred a)

-- What one entry of the role leaves; the role is not hashed.
abbrev recorded : Bytes → List Row
recorded role =
    (write_activity shift false table ((record (entry (codes "1")) { role = role }) ∷ []) [] []).0

empty_shift :
    (org : Bytes) → reported org (verify_audit_chain shift false (table.scan [])).breaks ≡ false
unfolding verify_audit_chain check_rows
empty_shift org = refl

recorded_verifies :
    (role : Bytes)
    → reported (codes "o") (verify_audit_chain shift false (table.scan (recorded role))).breaks
      ≡ false
recorded_verifies role =
    write_activity-verify_audit_chain shift false table table-Laws
      ((record (entry (codes "1")) { role = role }) ∷ []) [] [] (inr refl, tt) empty_shift
      (codes "o")

same_head-hashed_text_example :
    map (hashed_text false) (of_org (codes "o") (table.scan (recorded (codes "reader"))))
    ≡ map (hashed_text false) (of_org (codes "o") (table.scan (recorded (codes "admin"))))
unfolding write_activity write_audits transaction write_histories previous_of record_head set_at
    bytes_eq of_org last_hash scanned prepare_audit audit_hash hashed_values row_of null_text text
same_head-hashed_text_example =
    same_head-hashed_text shift false shift-collision_free shift-Unbarred
      (table.scan (recorded (codes "reader"))) (table.scan (recorded (codes "admin"))) (codes "o")
      (recorded_verifies (codes "reader")) (recorded_verifies (codes "admin")) refl refl

abbrev first_entry : AuditLog
first_entry = prepare_audit digest [] (entry (codes "1"))

abbrev second_entry : AuditLog
second_entry = prepare_audit digest first_entry.entry_hash (entry (codes "2"))

abbrev first_row : Row
first_row = row_of false first_entry

abbrev second_row : Row
second_row = row_of false second_entry

purged-reported_example :
    reported (codes "o") (verify_audit_chain digest false (second_row ∷ [])).breaks ≡ true
unfolding write_activity write_audits transaction write_histories previous_of record_head set_at
    bytes_eq of_org last_hash scanned prepare_audit audit_hash hashed_values row_of null_text text
purged-reported_example =
    purged-reported digest false (table.scan written) (second_row ∷ []) (codes "o") first_row []
      second_row [] (λ a e. cc)
      (write_activity-verify_audit_chain digest false table table-Laws two_entries [] []
        (inr refl, (inr refl, tt)) empty_verifies (codes "o"))
      refl refl
