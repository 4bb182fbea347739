-- ===== src/Schedules/Runs.antt =====
-- The scheduler of rowset-core/internal/api/scheduler.go: `startDueSchedules` and `startScheduled` with the
-- rows of rowset-core/internal/store/schedules.go. The scheduler's loop, the runs, requests to run a query now,
-- to save or to delete it, and the end of the program interleave. An id is a number; a stored time, an RFC
-- 3339 text of whole seconds, is its number of nanoseconds.
pub mod Ordered
pub mod Once
pub mod Later
pub mod Reached
use rowset_studio.Common.{
  ℕ, suc, ◌+◌, ◌*◌, ◌/◌, ◌≡◌, ◌≤◌, ◌⊎◌, Bool, true, false, not, ◌&&◌, ◌||◌, Option, none, some,
  List, [], ◌∷◌, Bytes, Member, ltb, update, if◌then◌else◌,
}
use rowset_studio.Schedules.{ScheduleSpec, Calendar, second, next_run}

-- `scheduleTick`.
abbrev pub schedule_tick : ℕ
schedule_tick = 15 * second

-- A time as Format(time.RFC3339) shows it.
abbrev pub whole_seconds : ℕ → ℕ
whole_seconds t = (t / second) * second

-- What the scheduler reads of a row of scheduled_queries. Each time that a row is saved is a version of it,
-- which tells the saved schedules of a query apart; the program does not read it.
pub record Scheduled : Type 0 where
  pub schedule : Bytes
  pub catch_up : Bool
  pub enabled : Bool
  pub next_run_at : Option ℕ
  pub version : ℕ

-- A run that the scheduler started: the query, the time it was due, the time of the tick, and whether the query
-- asks for missed runs.
pub record Start : Type 0 where
  pub query : ℕ
  pub version : ℕ
  pub due : ℕ
  pub at : ℕ
  pub catch_up : Bool

-- The loop over the due queries of a tick: between ticks; in front of the queries that are left; and between
-- the advance of a query and its start.
pub data Loop : Type 0 where
  idle : Loop
  pending : ℕ → List (ℕ × Scheduled) → Loop
  starting : ℕ → ℕ → Scheduled → List (ℕ × Scheduled) → Loop

-- The table, the loop, `scheduleRunning`, whether `scheduleContext` is done, of each query the number of its
-- runs that have not ended, and the runs that the scheduler started.
pub record Scheduler : Type 0 where
  pub queries : ℕ → Option Scheduled
  pub loop : Loop
  pub running : ℕ → Bool
  pub stopped : Bool
  pub workers : ℕ → ℕ
  pub started : List Start
  pub saves : ℕ

abbrev pub first_version : Option Scheduled → Option Scheduled
first_version none = none
first_version (some row) = some (record row { version = 0 })

unfoldable pub new_scheduler : (ℕ → Option Scheduled) → Scheduler
new_scheduler queries = record {
  queries = λ id. first_version (queries id);
  loop = idle;
  running = λ id. false;
  stopped = false;
  workers = λ id. 0;
  started = [];
  saves = 1;
}

-- The rows that `DueScheduledQueries` selects.
abbrev pub IsDue : ℕ → Scheduled → Type 0
IsDue now item =
    (due : ℕ) × (item.enabled ≡ true) × (item.next_run_at ≡ some due) × (due ≤ whole_seconds now)

-- Rows of the table that are due, each once. `DueScheduledQueries` returns all of them.
abbrev pub AreDue : Scheduler → ℕ → List (ℕ × Scheduled) → Type 0
AreDue s now [] = Unit
AreDue s now (row ∷ rows) =
    (s.queries row.0 ≡ some row.1)
    × IsDue now row.1
    × ((other : ℕ × Scheduled) → Member other rows → other.0 ≡ row.0 → ⊥)
    × AreDue s now rows

-- `SetScheduledNextRun` on the row with the id; no row is no error.
abbrev pub set_next_run : Option ℕ → Option Scheduled → Option Scheduled
set_next_run next none = none
set_next_run next (some row) = some (record row { next_run_at = next })

-- A run that was missed by more than two ticks and is not caught up with.
unfoldable pub is_missed : ℕ → Scheduled → Bool
is_missed now item = elim item.next_run_at [
  | none ↦ false
  | some due ↦ ltb (due + 2 * schedule_tick) now && not item.catch_up
]

-- `startScheduled`, and whether it started a run.
unfoldable pub start_scheduled : ℕ → Scheduler → Scheduler × Bool
start_scheduled id s = if s.running id || s.stopped then (s, false) else (
  record s {
    running = update s.running id true;
    workers = update s.workers id (suc (s.workers id));
  },
  true,
)

abbrev pub due_of : Scheduled → ℕ
due_of item = elim item.next_run_at [ none ↦ 0 | some due ↦ due ]

-- The start of a query that was advanced; the loop goes on.
unfoldable pub start_due : ℕ → ℕ → Scheduled → List (ℕ × Scheduled) → Scheduler → Scheduler
unfolding start_scheduled
start_due now id item rest s =
    let r = start_scheduled id s in
    if r.1
    then record (r.0) {
      loop = pending now rest;
      started =
          (record {
            query = id;
            version = item.version;
            due = due_of item;
            at = now;
            catch_up = item.catch_up;
          })
          ∷ s.started;
    }
    else record (r.0) { loop = pending now rest }

-- What a request to save a query writes.
unfoldable pub save_scheduled : ℕ → Scheduled → Scheduler → Scheduler
save_scheduled id row s = record s {
  queries = update s.queries id (some (record row { version = s.saves }));
  saves = suc s.saves;
}

-- The end of a run; the number of the others is given.
unfoldable pub end_run : ℕ → ℕ → Scheduler → Scheduler
end_run id others s = record s {
  running = update s.running id false;
  workers = update s.workers id others;
}

module _ (calendar : Calendar) (decode : Bytes → Option ScheduleSpec) where
  -- `nextRunString`; `none` is its error, `some none` the text that is missing.
  unfoldable pub next_run_string : ScheduleSpec → Bool → ℕ → Option (Option ℕ)
  next_run_string spec enabled now =
      if not enabled then some none else elim (next_run calendar spec now) [
        | none ↦ none
        | some next ↦ some (some (whole_seconds next))
      ]

  -- The first part of the loop's body; `stored` says whether the database stored the next run.
  unfoldable pub advance : Bool → ℕ → ℕ → Scheduled → List (ℕ × Scheduled) → Scheduler → Scheduler
  unfolding next_run_string is_missed
  advance stored now id item rest s = elim (decode item.schedule) [
    | none ↦ record s { loop = pending now rest }
    | some spec ↦ elim (next_run_string spec true now) [
      | none ↦ record s { loop = pending now rest }
      | some next ↦ if not stored then record s { loop = pending now rest } else record s {
        queries = update s.queries id (set_next_run next (s.queries id));
        loop = if is_missed now item then pending now rest else starting now id item rest;
      }
    ]
  ]

  pub data Step : Scheduler → Scheduler → Type 0 where
    tick_step :
        (s : Scheduler) (now : ℕ) (items : List (ℕ × Scheduled))
        → s.loop ≡ idle
        → AreDue s now items
        → Step s (record s { loop = pending now items })
    advance_step :
        (s : Scheduler) (stored : Bool) (now id : ℕ) (item : Scheduled)
        (rest : List (ℕ × Scheduled))
        → s.loop ≡ pending now ((id, item) ∷ rest)
        → Step s (advance stored now id item rest s)
    start_step :
        (s : Scheduler) (now id : ℕ) (item : Scheduled) (rest : List (ℕ × Scheduled))
        → s.loop ≡ starting now id item rest
        → Step s (start_due now id item rest s)
    rest_step :
        (s : Scheduler) (now : ℕ) → s.loop ≡ pending now [] → Step s (record s { loop = idle })
    -- A request to run a query now.
    manual_step : (s : Scheduler) (id : ℕ) → Step s (start_scheduled id s).0
    end_step :
        (s : Scheduler) (id others : ℕ) → s.workers id ≡ suc others → Step s (end_run id others s)
    delete_step :
        (s : Scheduler) (id : ℕ) → Step s (record s { queries = update s.queries id none })
    -- `saveScheduled` of a new query or of one that is there: its row is any, since the times at which a request
    -- computes the next run and at which it stores the row are apart.
    save_step : (s : Scheduler) (id : ℕ) (row : Scheduled) → Step s (save_scheduled id row s)
    stop_step : (s : Scheduler) → Step s (record s { stopped = true })

  pub data Reach (queries : ℕ → Option Scheduled) : Scheduler → Type 0 where
    here : Reach queries (new_scheduler queries)
    next : {s t : Scheduler} → Reach queries s → Step s t → Reach queries t
