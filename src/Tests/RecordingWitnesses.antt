-- ===== src/Tests/RecordingWitnesses.antt =====
-- The theorem on the buffer over its database, applied to one entry and a barrier.
use rowset_studio.Common.{refl, inl, arith, All, false, List, [], ◌∷◌, codes, bytes_eq}
use rowset_studio.Activity.{
  QueuedRecord, audit, barrier, audits_of, histories_of, barriers_of, has_data, written, Buffered,
  new_buffered, send, receive, collect, end_batch, store_batch,
}
use rowset_studio.Audit.Entry.{AuditLog, Row, prepare_audit}
use rowset_studio.Audit.Database.{QueryHistory, of_org, last_hash, scanned}
use rowset_studio.Audit.Write.{
  previous_of, write_audits, write_histories, transaction, write_activity,
}
use rowset_studio.Recording.{Run, here, next}
use rowset_studio.Recording.Rows.{Recorded}
use rowset_studio.Recording.Flushed.{flushed-Recorded}
use rowset_studio.Tests.AuditTable.{table, table-Laws, entry, digest}

abbrev batch : List (QueuedRecord AuditLog QueryHistory)
batch = audit (entry (codes "1")) ∷ barrier 1 ∷ []

abbrev flushed : Buffered AuditLog QueryHistory
flushed = record new_buffered {
  log = record new_buffered.log {
    sent = batch;
    handled = batch;
    audits = entry (codes "1") ∷ [];
    released = 1 ∷ [];
  };
}

abbrev rows : List Row
rows = (write_activity digest false table (entry (codes "1") ∷ []) [] []).0

flushed-Run : Run digest false table 2 [] flushed rows
unfolding has_data written audits_of histories_of write_activity write_audits transaction
    write_histories previous_of bytes_eq of_org last_hash scanned prepare_audit
flushed-Run =
    next
      (next
        (next
          (next
            (next
              (next here (send new_buffered (audit (entry (codes "1"))) refl (omega arith)) refl)
              (send _ (barrier 1) refl (omega arith)) refl)
            (receive _ (audit (entry (codes "1"))) (barrier 1 ∷ []) refl refl) refl)
          (collect _ (barrier 1) (audit (entry (codes "1")) ∷ []) [] refl (omega arith) refl) refl)
        (end_batch _ batch refl) refl)
      (store_batch _ batch refl refl) refl

flushed-Recorded_example : All (Recorded digest false table table-Laws rows) (
    audits_of
      (let rs : List (QueuedRecord AuditLog QueryHistory) = audit (entry (codes "1")) ∷ [] in rs))
unfolding barriers_of
flushed-Recorded_example =
    flushed-Recorded digest false table table-Laws 2 1 (audit (entry (codes "1")) ∷ []) []
      flushed-Run refl refl (λ m. m) (inl refl)
