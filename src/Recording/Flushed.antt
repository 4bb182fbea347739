-- ===== src/Recording/Flushed.antt =====
-- `Flush` of rowset-core/internal/activity/activity.go, down to the rows of the database.
use rowset_studio.Common.{
  ℕ, ◌≡◌, refl, sym, subst, Bool, false, Option-cases, List, [], ◌∷◌, ◌++◌, Bytes, inl, inr, Member,
  All, arith,
}
use rowset_studio.Activity.{
  QueuedRecord, audit, history, barrier, audits_of, histories_of, barriers_of, Buffered,
  new_buffered, written, abandoned, Step, send, wait, admit, give_up, send_direct, close_barrier,
  close_waiting, receive, collect, end_batch, store_barriers, store_batch, retry, abandon, stop,
  begin_shutdown, close_queue, cancel, is_cancelled, has_data, Reach,
}
use rowset_studio.Activity
use rowset_studio.Activity.Barriers.{released-Stored}
use rowset_studio.Audit.Entry.{AuditLog}
use rowset_studio.Audit.Database.{Database, Laws, QueryHistory}
use rowset_studio.Recording.{write_record, Writes, Run, here, next}
use rowset_studio.Recording.Rows.{
  Grows, Grows-refl, Recorded, Recorded-grows, same_scan-Grows, write_activity-Recorded,
  write_activity-Grows, All-map,
}

All-append : {A : Type 0} (P : A → Type 0) (xs ys : List A) → All P xs → All P ys → All P (xs ++ ys)
All-append P [] ys h k = k
All-append P (x ∷ xs) ys h k = (h.0, All-append P xs ys h.1 k)

All-front : {A : Type 0} (P : A → Type 0) (xs ys : List A) → All P (xs ++ ys) → All P xs
All-front P [] ys h = tt
All-front P (x ∷ xs) ys h = (h.0, All-front P xs ys h.1)

-- A batch without data has no entries.
audits_of-no_data :
    (rs : List (QueuedRecord AuditLog QueryHistory)) → has_data rs ≡ false → audits_of rs ≡ []
unfolding audits_of has_data
audits_of-no_data [] h = refl
audits_of-no_data (audit a ∷ rs) h = absurd (ground (arith, h))
audits_of-no_data (history a ∷ rs) h = absurd (ground (arith, h))
audits_of-no_data (barrier k ∷ rs) h = audits_of-no_data rs h

module _ (digest : Bytes → Bytes) (reference_column : Bool) (d : Database) (laws : Laws d) where
  write_record-Grows :
      (r : QueuedRecord AuditLog QueryHistory) (db : d.Db)
      → Grows digest reference_column d laws db (write_record digest reference_column d r db).0
  unfolding write_record
  write_record-Grows (audit item) db =
      write_activity-Grows digest reference_column d laws (item ∷ []) [] db
  write_record-Grows (history item) db = elim (Option-cases (d.insert_history db item)) [
    | inl n ↦ rw n (Grows-refl digest reference_column d laws db db refl)
    | inr (after, i) ↦ rw i (
        same_scan-Grows digest reference_column d laws db after
          (laws.insert_history-scan db item after i))
  ]
  write_record-Grows (barrier k) db = Grows-refl digest reference_column d laws db db refl

  -- What the buffer's log calls stored is recorded in the database.
  abbrev AllRecorded : Buffered AuditLog QueryHistory → d.Db → Type 0
  AllRecorded b db = All (Recorded digest reference_column d laws db) b.log.audits

  grown :
      (items : List AuditLog) (db after : d.Db)
      → Grows digest reference_column d laws db after
      → All (Recorded digest reference_column d laws db) items
      → All (Recorded digest reference_column d laws after) items
  grown items db after g h =
      All-map items (λ item r. Recorded-grows digest reference_column d laws db after item g r) h

  same :
      (items : List AuditLog) (db after : d.Db)
      → after ≡ db
      → All (Recorded digest reference_column d laws db) items
      → All (Recorded digest reference_column d laws after) items
  same items db after e h =
      grown items db after (Grows-refl digest reference_column d laws db after e) h

  direct :
      (b : Buffered AuditLog QueryHistory) (r : QueuedRecord AuditLog QueryHistory)
      (db after : d.Db)
      → after ≡ (write_record digest reference_column d r db).0
      → AllRecorded b db
      → All (Recorded digest reference_column d laws after) b.log.audits
  direct b r db after w h =
      grown b.log.audits db after
        (subst (Grows digest reference_column d laws db) (sym w) (write_record-Grows r db)) h

  stored :
      (b : Buffered AuditLog QueryHistory) (rs : List (QueuedRecord AuditLog QueryHistory))
      (db after : d.Db)
      → AllRecorded b db
      → Grows digest reference_column d laws db after
      → All (Recorded digest reference_column d laws after) (audits_of rs)
      → All (Recorded digest reference_column d laws after) (b.log.audits ++ audits_of rs)
  stored b rs db after h g new =
      All-append (Recorded digest reference_column d laws after) b.log.audits (audits_of rs)
        (grown b.log.audits db after g h) new

  module _ (capacity : ℕ) where
    Step-Recorded :
        {b c : Buffered AuditLog QueryHistory} (db after : d.Db) (step : Step capacity b c)
        → Writes digest reference_column d step db after
        → AllRecorded b db
        → AllRecorded c after
    unfolding written abandoned
    Step-Recorded db after (send b r _ _) w h = same b.log.audits db after w h
    Step-Recorded db after (wait b r _ _) w h = same b.log.audits db after w h
    Step-Recorded db after (admit b _ _ r _ _) w h = same b.log.audits db after w h
    Step-Recorded db after (give_up b _ _ r _) w h = direct b r db after w h
    Step-Recorded db after (send_direct b r _ _) w h = direct b r db after w h
    Step-Recorded db after (close_barrier b k _) w h = same b.log.audits db after w h
    Step-Recorded db after (close_waiting b _ _ k _ _) w h = same b.log.audits db after w h
    Step-Recorded db after (receive b r rest _ _) w h = same b.log.audits db after w h
    Step-Recorded db after (collect b r rs rest _ _ _) w h = same b.log.audits db after w h
    Step-Recorded db after (end_batch b rs _) w h = same b.log.audits db after w h
    Step-Recorded db after (store_barriers b rs _ empty) w h =
        stored b rs db after h (Grows-refl digest reference_column d laws db after w) (
          subst (All (Recorded digest reference_column d laws after))
            (sym (audits_of-no_data rs empty)) tt)
    Step-Recorded db after (store_batch b rs _ _) w h =
        let (grows, new) =
          write_activity-Recorded digest reference_column d laws (audits_of rs) (histories_of rs) db
            after w in
        stored b rs db after h grows new
    Step-Recorded db after (retry b rs _ _) w h =
        grown b.log.audits db after
          (subst (λ p. Grows digest reference_column d laws db p.0) w
            (write_activity-Grows digest reference_column d laws (audits_of rs) (histories_of rs)
              db))
          h
    Step-Recorded db after (abandon b rs _ _ _) w h = same b.log.audits db after w h
    Step-Recorded db after (stop b _ _ _) w h = same b.log.audits db after w h
    Step-Recorded db after (begin_shutdown b _) w h = same b.log.audits db after w h
    Step-Recorded db after (close_queue b _ _) w h = same b.log.audits db after w h
    Step-Recorded db after (cancel b _) w h = same b.log.audits db after w h

    Run-Recorded :
        {first db : d.Db} {b : Buffered AuditLog QueryHistory}
        → Run digest reference_column d capacity first b db
        → AllRecorded b db
    Run-Recorded here = tt
    Run-Recorded (next {db} {after} run step w) = Step-Recorded db after step w (Run-Recorded run)

    Run-Reach :
        {first db : d.Db} {b : Buffered AuditLog QueryHistory}
        → Run digest reference_column d capacity first b db
        → Reach capacity new_buffered b
    Run-Reach here = Activity.here
    Run-Reach (next run step w) = Activity.next (Run-Reach run) step

    -- Once the writer has closed a barrier of a `Flush` that entered the queue, and its context is not
    -- cancelled, every audit entry that was queued before the barrier stands in the database, in a row of its organization that
    -- continues some hash: in every interleaving of the buffer's steps, whatever transactions fail in
    -- between, for every SQLite that satisfies the laws. A barrier that a `Flush` closes
    -- itself, at shutdown, is none that entered the queue. The barrier's channel is none of those
    -- queued before it; an entry without an organization is none of a chain.
    pub flushed-Recorded :
        {first db : d.Db} {b : Buffered AuditLog QueryHistory} (k : ℕ)
        (before after : List (QueuedRecord AuditLog QueryHistory))
        → Run digest reference_column d capacity first b db
        → is_cancelled b.closing ≡ false
        → b.log.sent ≡ before ++ (barrier k ∷ after)
        → (Member k (barriers_of before) → ⊥)
        → Member k b.log.released
        → All (Recorded digest reference_column d laws db) (audits_of before)
    flushed-Recorded {db} {b} k before after run live sent new m =
        let ((later, e), _) =
          released-Stored capacity k before after (Run-Reach run) live sent new m in
        All-front (Recorded digest reference_column d laws db) (audits_of before) later
          (subst (All (Recorded digest reference_column d laws db)) e (Run-Recorded run))
