-- ===== src/Recording.antt =====
-- The buffer of rowset-core/internal/activity/activity.go over the audit log of
-- rowset-core/internal/store/audit.go: what each step of the buffer does to the database, with
-- `WriteBatch` of `SQLite`, which is `WriteActivity`.
pub mod Rows
pub mod Flushed
use rowset_studio.Common.{ℕ, ◌≡◌, Bool, true, false, Option, List, [], ◌∷◌, Bytes}
use rowset_studio.Activity.{
  QueuedRecord, audit, history, barrier, audits_of, histories_of, Buffered, new_buffered, Step,
  send, wait, admit, give_up, send_direct, close_barrier, close_waiting, receive, collect,
  end_batch, store_barriers, store_batch, retry, abandon, stop, begin_shutdown, close_queue, cancel,
}
use rowset_studio.Audit.Entry.{AuditLog}
use rowset_studio.Audit.Database.{Database, QueryHistory}
use rowset_studio.Audit.Write.{outcome, write_activity}

module _ (digest : Bytes → Bytes) (reference_column : Bool) (d : Database) where
  -- `WriteAudit` and `CreateQueryHistory` of a sender that writes past the queue.
  unfoldable pub write_record : QueuedRecord AuditLog QueryHistory → d.Db → d.Db × Bool
  unfolding write_activity
  write_record (audit item) db = write_activity digest reference_column d (item ∷ []) [] db
  write_record (history item) db = outcome digest reference_column d db (d.insert_history db item)
  write_record (barrier k) db = (db, true)

  -- What a step does to the database: a batch is stored when its transaction commits, and tried again
  -- when it fails.
  abbrev pub Writes :
      {capacity : ℕ} {b c : Buffered AuditLog QueryHistory}
      → Step capacity b c
      → d.Db
      → d.Db
      → Type 0
  Writes (send b r _ _) db after = after ≡ db
  Writes (wait b r _ _) db after = after ≡ db
  Writes (admit b _ _ r _ _) db after = after ≡ db
  Writes (give_up b _ _ r _) db after = after ≡ (write_record r db).0
  Writes (send_direct b r _ _) db after = after ≡ (write_record r db).0
  Writes (close_barrier b k _) db after = after ≡ db
  Writes (close_waiting b _ _ k _ _) db after = after ≡ db
  Writes (receive b r rest _ _) db after = after ≡ db
  Writes (collect b r rs rest _ _ _) db after = after ≡ db
  Writes (end_batch b rs _) db after = after ≡ db
  Writes (store_barriers b rs _ _) db after = after ≡ db
  Writes (store_batch b rs _ _) db after =
      write_activity digest reference_column d (audits_of rs) (histories_of rs) db ≡ (after, true)
  Writes (retry b rs _ _) db after =
      write_activity digest reference_column d (audits_of rs) (histories_of rs) db ≡ (after, false)
  Writes (abandon b rs _ _ _) db after = after ≡ db
  Writes (stop b _ _ _) db after = after ≡ db
  Writes (begin_shutdown b _) db after = after ≡ db
  Writes (close_queue b _ _) db after = after ≡ db
  Writes (cancel b _) db after = after ≡ db

  -- The runs of the buffer and its database, from a database at the start.
  pub data Run (capacity : ℕ) (first : d.Db) : Buffered AuditLog QueryHistory → d.Db → Type 0 where
    here : Run capacity first new_buffered first
    next :
        {b c : Buffered AuditLog QueryHistory} {db after : d.Db}
        → Run capacity first b db
        → (step : Step capacity b c) → Writes step db after
        → Run capacity first c after
