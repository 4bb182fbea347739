-- ===== src/Audit/Chains.antt =====
-- `VerifyAuditChain` against the chain of each organization on its own.
use rowset_studio.Common.{
  set_at, ◌≡◌, ◌∙◌, refl, Bool, true, false, not, ◌&&◌, ◌||◌, List, [], ◌∷◌, ◌++◌, Bytes, bytes_eq,
  bytes_eq_iff, arith, ◌+◌, length,
}
use rowset_studio.Audit.Entry.{Row, text}
use rowset_studio.Audit.Database.{of_org}
use rowset_studio.Audit.Verify.{
  Walk, walk_start, ChainBreak, follows, check_row, check_rows, verify_audit_chain,
}

module _ (digest : Bytes → Bytes) (reference_column : Bool) where
  -- Each row of the list follows the one in front of it, the first one `previous`.
  abbrev pub intact : Bytes → List Row → Bool
  intact previous [] = true
  intact previous (row ∷ rows) =
      follows digest reference_column previous row && intact (text row.entry_hash) rows

  check_row-other :
      (walk : Walk) (row : Row) (org : Bytes)
      → bytes_eq (text row.org_id) org ≡ false
      → ((check_row digest reference_column walk row).broken org ≡ walk.broken org)
        × ((check_row digest reference_column walk row).previous org ≡ walk.previous org)
  unfolding check_row set_at
  check_row-other walk row org h = ground arith

  check_row-broken :
      (walk : Walk) (row : Row)
      → (check_row digest reference_column walk row).broken (text row.org_id) ≡ (
          walk.broken (text row.org_id)
          || not (follows digest reference_column (walk.previous (text row.org_id)) row))
  unfolding check_row set_at
  check_row-broken walk row = ground (arith, bytes_eq_iff (text row.org_id) (text row.org_id))

  check_row-previous :
      (walk : Walk) (row : Row)
      → walk.broken (text row.org_id) ≡ false
      → follows digest reference_column (walk.previous (text row.org_id)) row ≡ true
      → (check_row digest reference_column walk row).previous (text row.org_id)
        ≡ text row.entry_hash
  unfolding check_row set_at
  check_row-previous walk row = ground (arith, bytes_eq_iff (text row.org_id) (text row.org_id))

  check_rows-broken :
      (walk : Walk) (rows : List Row) (org : Bytes)
      → (check_rows digest reference_column walk rows).broken org
        ≡ (walk.broken org || not (intact (walk.previous org) (of_org org rows)))
  unfolding check_rows of_org
  check_rows-broken walk [] org = ground arith
  check_rows-broken walk (row ∷ rows) org = ground (
    arith,
    bytes_eq_iff (text row.org_id) org,
    check_row-other walk row org,
    check_row-broken walk row,
    check_row-previous walk row,
    check_rows-broken (check_row digest reference_column walk row) rows org,
  )

-- Whether some break names the organization.
abbrev pub reported : Bytes → List ChainBreak → Bool
reported org [] = false
reported org (b ∷ bs) = bytes_eq b.org_id org || reported org bs

reported-append :
    (org : Bytes) (first later : List ChainBreak)
    → reported org (first ++ later) ≡ (reported org first || reported org later)
reported-append org [] later = ground arith
reported-append org (b ∷ bs) later = ground (arith, reported-append org bs later)

module _ (digest : Bytes → Bytes) (reference_column : Bool) where
  check_row-reported :
      (walk : Walk) (row : Row) (org : Bytes)
      → reported org walk.breaks ≡ walk.broken org
      → reported org (check_row digest reference_column walk row).breaks
        ≡ (check_row digest reference_column walk row).broken org
  unfolding check_row set_at
  check_row-reported walk row org h = ground (
    arith,
    bytes_eq_iff (text row.org_id) org,
    reported-append org walk.breaks (record { org_id = text row.org_id; audit_id = row.id } ∷ []),
  )

  check_rows-reported :
      (walk : Walk) (rows : List Row) (org : Bytes)
      → reported org walk.breaks ≡ walk.broken org
      → reported org (check_rows digest reference_column walk rows).breaks
        ≡ (check_rows digest reference_column walk rows).broken org
  unfolding check_rows
  check_rows-reported walk [] org h = h
  check_rows-reported walk (row ∷ rows) org h =
      check_rows-reported (check_row digest reference_column walk row) rows org
        (check_row-reported walk row org h)

  check_rows-checked :
      (walk : Walk) (rows : List Row)
      → (check_rows digest reference_column walk rows).checked ≡ walk.checked + length rows
  unfolding check_rows check_row
  check_rows-checked walk [] = omega arith
  check_rows-checked walk (row ∷ rows) =
      ground (arith, check_rows-checked (check_row digest reference_column walk row) rows)

  -- The walk over all rows names an organization in its breaks exactly when the rows of that
  -- organization, taken alone, are not a chain that begins with no previous hash; it counts every
  -- row.
  pub verify_audit_chain-reported :
      (rows : List Row) (org : Bytes)
      → (reported org (verify_audit_chain digest reference_column rows).breaks
          ≡ not (intact digest reference_column [] (of_org org rows)))
        × ((verify_audit_chain digest reference_column rows).checked ≡ length rows)
  unfolding verify_audit_chain
  verify_audit_chain-reported rows org = (
    check_rows-reported walk_start rows org refl
        ∙ check_rows-broken digest reference_column walk_start rows org,
    omega (arith, check_rows-checked walk_start rows),
  )
