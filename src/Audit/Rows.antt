-- ===== src/Audit/Rows.antt =====
-- What is hashed of an entry survives the columns of its row.
use rowset_studio.Common.{
  ℤ, pos, is_number, codes, join, sym, ap, ◌∙◌, ◌≡◌, refl, Bool, true, false, [], ◌∷◌, none, Bytes,
  bytes_eq, bytes_eq_iff, arith, if◌then◌else◌, ◌⊎◌, inl, inr,
}
use rowset_studio.Audit.Entry.{
  AuditLog, Row, text, null_text, nullable_number, number, is_set, optional_number, row_of, item_of,
  hashed_values, audit_hash, prepare_audit, verify_prepared_audit,
}
use rowset_studio.Audit.Verify.{follows}

text-null_text : (s : Bytes) → text (null_text s) ≡ s
unfolding text null_text
text-null_text [] = refl
text-null_text (c ∷ cs) = refl

optional_number-nullable_number :
    (n : ℤ) (set : Bool)
    → optional_number (number (nullable_number n set)) (is_set (nullable_number n set))
      ≡ optional_number n set
unfolding optional_number number is_set nullable_number
optional_number-nullable_number n true = refl
optional_number-nullable_number n false = refl

stored_reference :
    (reference_column : Bool) (reference : Bytes)
    → (reference_column ≡ true) ⊎ (reference ≡ [])
    → (if reference_column
        then text (if reference_column then null_text reference else none)
        else [])
      ≡ reference
stored_reference true reference h = text-null_text reference
stored_reference false reference (inl e) = absurd (ground (arith, e))
stored_reference false reference (inr e) = rw e refl

pub hashed_values-item_of-row_of :
    (reference_column : Bool) (version : ℤ) (previous : Bytes) (item : AuditLog)
    → (reference_column ≡ true) ⊎ (item.reference ≡ [])
    → hashed_values version previous (item_of reference_column (row_of reference_column item))
      ≡ hashed_values version previous item
unfolding hashed_values item_of row_of
hashed_values-item_of-row_of reference_column version previous item h =
    rw
      (
        text-null_text item.user_id,
        text-null_text item.org_id,
        text-null_text item.connection_id,
        text-null_text item.query_hash,
        text-null_text item.started_at,
        text-null_text item.policy_decision,
        text-null_text item.sql,
        text-null_text item.error_message,
        text-null_text item.client_ip,
        optional_number-nullable_number item.rows_returned item.rows_returned_set,
        optional_number-nullable_number item.rows_affected item.rows_affected_set,
        stored_reference reference_column item.reference h,
      )
      refl

pub row_of-columns :
    (reference_column : Bool) (item : AuditLog)
    → (text (row_of reference_column item).prev_hash ≡ item.previous_hash)
      × ((row_of reference_column item).hash_version ≡ item.hash_version)
      × (text (row_of reference_column item).entry_hash ≡ item.entry_hash)
      × (text (row_of reference_column item).org_id ≡ item.org_id)
unfolding row_of text
row_of-columns reference_column item =
    (text-null_text item.previous_hash, refl, refl, text-null_text item.org_id)

bytes_eq-same : (s : Bytes) → bytes_eq s s ≡ true
bytes_eq-same s = ground (arith, bytes_eq_iff s s)

module _ (digest : Bytes → Bytes) (reference_column : Bool) where
  verified :
      (version : ℤ) (previous expected : Bytes) (item : AuditLog)
      → version ≡ pos 2
      → expected ≡ audit_hash digest (pos 2) previous item
      → verify_prepared_audit digest version previous expected item ≡ true
  unfolding verify_prepared_audit is_number
  verified version previous expected item v h =
      rw (v, h, bytes_eq-same (audit_hash digest (pos 2) previous item)) refl

  follows-row :
      (previous : Bytes) (row : Row)
      → text row.prev_hash ≡ previous
      → row.hash_version ≡ pos 2
      → text row.entry_hash
        ≡ audit_hash digest (pos 2) (text row.prev_hash) (item_of reference_column row)
      → follows digest reference_column previous row ≡ true
  unfolding follows
  follows-row previous row before version hash = ground (
    arith,
    before,
    bytes_eq_iff (text row.prev_hash) previous,
    verified row.hash_version (text row.prev_hash) (text row.entry_hash)
        (item_of reference_column row) version hash,
  )

  follows-row_of :
      (previous : Bytes) (item : AuditLog)
      → (reference_column ≡ true) ⊎ (item.reference ≡ [])
      → item.previous_hash ≡ previous
      → item.hash_version ≡ pos 2
      → item.entry_hash ≡ audit_hash digest (pos 2) previous item
      → follows digest reference_column previous (row_of reference_column item) ≡ true
  unfolding audit_hash
  follows-row_of previous item h before version hash =
      let columns = row_of-columns reference_column item in
      let row = row_of reference_column item in
      let same = columns.0 ∙ before in
      let values =
        hashed_values-item_of-row_of reference_column (pos 2) (text row.prev_hash) item h in
      let hashed = (λ (b : Bytes). digest (join (codes "|") (hashed_values (pos 2) b item))) in
      follows-row previous row same (columns.1 ∙ version) (
        columns.2
        ∙ hash
        ∙ ap hashed (sym same)
        ∙ ap (λ vs. digest (join (codes "|") vs)) (sym values))

  -- The row of a prepared entry follows the hash that it was prepared with.
  pub prepare_audit-follows :
      (previous : Bytes) (item : AuditLog)
      → (reference_column ≡ true) ⊎ (item.reference ≡ [])
      → follows digest reference_column previous
          (row_of reference_column (prepare_audit digest previous item))
        ≡ true
  unfolding prepare_audit audit_hash hashed_values
  prepare_audit-follows previous item h =
      follows-row_of previous (prepare_audit digest previous item) h refl refl refl
