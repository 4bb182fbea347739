-- ===== src/Audit/Verify.antt =====
-- `VerifyAuditChain` of rowset-core/internal/store/audit.go, over the rows that the scan returns.
use rowset_studio.Common.{
  set_at, ℕ, suc, Bool, true, false, not, ◌||◌, List, [], ◌∷◌, ◌++◌, Bytes, bytes_eq, if◌then◌else◌,
}
use rowset_studio.Audit.Entry.{Row, text, item_of, verify_prepared_audit}

pub record ChainBreak : Type 0 where
  pub org_id : Bytes
  pub audit_id : Bytes

-- The variables of the walk; a Go map is a function with its zero value where no key is set.
pub record Walk : Type 0 where
  pub breaks : List ChainBreak
  pub broken : Bytes → Bool
  pub previous : Bytes → Bytes
  pub checked : ℕ

abbrev pub walk_start : Walk
walk_start = record { breaks = []; broken = λ org. false; previous = λ org. []; checked = 0 }

module _ (digest : Bytes → Bytes) (reference_column : Bool) where
  -- The row follows `previous` and has the hash of its item.
  unfoldable pub follows : Bytes → Row → Bool
  unfolding bytes_eq
  follows previous row = not (
      not (bytes_eq (text row.prev_hash) previous)
      || not (
          verify_prepared_audit digest row.hash_version (text row.prev_hash) (text row.entry_hash)
            (item_of reference_column row)))

  -- The body of the loop.
  unfoldable pub check_row : Walk → Row → Walk
  check_row walk row =
      let org = text row.org_id in
      let counted = record walk { checked = suc walk.checked } in
      if walk.broken org
      then counted
      else if not (follows (walk.previous org) row)
      then record counted {
        broken = set_at walk.broken org true;
        breaks = walk.breaks ++ (record { org_id = org; audit_id = row.id } ∷ []);
      }
      else record counted { previous = set_at walk.previous org (text row.entry_hash) }

  unfoldable pub check_rows : Walk → List Row → Walk
  check_rows walk [] = walk
  check_rows walk (row ∷ rows) = check_rows (check_row walk row) rows

  -- `VerifyAuditChain`: the walk's `breaks` and `checked` are its results.
  unfoldable pub verify_audit_chain : List Row → Walk
  verify_audit_chain rows = check_rows walk_start rows
