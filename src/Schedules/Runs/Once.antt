-- ===== src/Schedules/Runs/Once.antt =====
-- The invariant of the scheduler in its steps: rowset-core/internal/api/scheduler.go.
use rowset_studio.Common.{
  ℕ, suc, ◌==◌, ◌≡◌, ◌≤◌, ◌<◌, ◌⊎◌, inl, inr, refl, sym, subst, ap, ◌∙◌, Bool, true, false, ◌||◌,
  Option, some, List, update, if◌then◌else◌, Bool-cases, arith,
}
use rowset_studio.Schedules.Runs.{
  Scheduled, Start, Loop, idle, pending, starting, Scheduler, start_scheduled, start_due, end_run,
}
use rowset_studio.Schedules.Runs.Ordered.{
  IsAhead, Ahead, Waiting, Sound, Listed-started, Follows, Listed-Follows,
}

-- A change of the loop alone.
pub loop-Sound :
    (s : Scheduler) (loop : Loop)
    → Waiting s.saves s.started s.queries loop
    → Sound s
    → Sound (record s { loop = loop })
loop-Sound s loop waiting sound = record {
  one = sound.one;
  starts = sound.starts;
  in_time = sound.in_time;
  ahead = sound.ahead;
  waiting = waiting;
  known = sound.known;
  old = sound.old;
}

one_more :
    (running stopped : Bool) (n : ℕ)
    → running || stopped ≡ false
    → n ≡ (if running then 1 else 0)
    → suc n ≡ 1
one_more true stopped n e h = ground (arith, e)
one_more false stopped n e h = ap suc h

none_left :
    (running : Bool) (n others : ℕ) → n ≡ suc others → n ≡ (if running then 1 else 0) → others ≡ 0
none_left true n others e h = omega (arith, e, h)
none_left false n others e h = omega (arith, e, h)

started_one :
    (id : ℕ) (s : Scheduler)
    → (s.running id || s.stopped) ≡ false
    → Sound s
    → (other : ℕ)
    → update s.workers id (suc (s.workers id)) other
      ≡ (if update s.running id true other then 1 else 0)
started_one id s e sound other = elim (Bool-cases (other == id)) [
  | inl same ↦ rw same (one_more (s.running id) s.stopped (s.workers id) e (sound.one id))
  | inr n ↦ rw n (sound.one other)
]

pub start_scheduled-Sound : (id : ℕ) (s : Scheduler) → Sound s → Sound (start_scheduled id s).0
unfolding start_scheduled
start_scheduled-Sound id s sound = elim (Bool-cases (s.running id || s.stopped)) [
  | inl e ↦ rw e sound
  | inr e ↦ rw e (record {
    one = started_one id s e sound;
    starts = sound.starts;
    in_time = sound.in_time;
    ahead = sound.ahead;
    waiting = sound.waiting;
    known = sound.known;
    old = sound.old;
  })
]

pub end_run-Sound :
    (id others : ℕ) (s : Scheduler)
    → s.workers id ≡ suc others
    → Sound s
    → Sound (end_run id others s)
unfolding end_run
end_run-Sound id others s working sound = record {
  one = λ other. elim (Bool-cases (other == id)) [
    | inl same ↦ rw same (none_left (s.running id) (s.workers id) others working (sound.one id))
    | inr n ↦ rw n (sound.one other)
  ];
  starts = sound.starts;
  in_time = sound.in_time;
  ahead = sound.ahead;
  waiting = sound.waiting;
  known = sound.known;
  old = sound.old;
}

-- The runs of a query stay behind its row, when a row is set to one that they are behind.
pub Ahead-update :
    (queries : ℕ → Option Scheduled) (id : ℕ) (o : Option Scheduled) (q v due : ℕ)
    → ((q ≡ id) → (row : Scheduled) → o ≡ some row → IsAhead row v due)
    → Ahead queries q v due
    → Ahead (update queries id o) q v due
Ahead-update queries id o q v due new old row e = elim (Bool-cases (q == id)) [
  | inl same ↦ new (ground (arith, same)) row (rw same at e)
  | inr n ↦ old row (rw n at e)
]

-- The rest of the state follows a change of one row.
pub Follows-update :
    (saves : ℕ) (queries : ℕ → Option Scheduled) (id : ℕ) (o : Option Scheduled)
    → ((row : Scheduled)
        → o ≡ some row
        → (saves ≤ row.version)
          ⊎ ((old : Scheduled) × (queries id ≡ some old) × (old.version ≡ row.version)))
    → Follows saves queries (update queries id o)
Follows-update saves queries id o new q row e = elim (Bool-cases (q == id)) [
  | inl same ↦ elim (new row (rw same at e)) [
    | inl l ↦ inl l
    | inr (old, x, v) ↦ let at : q ≡ id = ground (arith, same) in inr (old, ap queries at ∙ x, v)
  ]
  | inr n ↦ inr (row, rw n at e, refl)
]

Waiting-update :
    (saves more : ℕ) (started : List Start) (queries : ℕ → Option Scheduled) (id : ℕ)
    (o : Option Scheduled) (loop : Loop)
    → saves ≤ more
    → ((row : Scheduled) → o ≡ some row → saves ≤ row.version)
    → Waiting saves started queries loop
    → Waiting more started (update queries id o) loop
Waiting-update saves more started queries id o idle h new w = _
Waiting-update saves more started queries id o (pending now items) h new w =
    Listed-Follows saves more started queries (update queries id o) now items
      (Follows-update saves queries id o (λ row e. inl (new row e))) h w
Waiting-update saves more started queries id o (starting now q item rest) h new
      ((due, at, low, behind, ahead, time, below), absent, left) =
    (
      (
        due,
        at,
        low,
        behind,
        Ahead-update queries id o q item.version due
            (λ same row e. let l = new row e in inl (omega (arith, l, below))) ahead,
        time,
        omega (arith, below, h),
      ),
      absent,
      Listed-Follows saves more started queries (update queries id o) now rest
          (Follows-update saves queries id o (λ row e. inl (new row e))) h left,
    )

-- A row is deleted, or saved with a version of its own.
pub save-Sound :
    (s : Scheduler) (id more : ℕ) (o : Option Scheduled)
    → s.saves ≤ more
    → ((row : Scheduled) → o ≡ some row → (s.saves ≤ row.version) × (row.version < more))
    → Sound s
    → Sound (record s { queries = update s.queries id o; saves = more })
save-Sound s id more o h new sound = record {
  one = sound.one;
  starts = sound.starts;
  in_time = sound.in_time;
  ahead = λ e m.
      Ahead-update s.queries id o e.query e.version e.due
        (λ same row x. let l = (new row x).0 in let b = sound.old e m in inl (omega (arith, l, b)))
        (sound.ahead e m);
  waiting =
      Waiting-update s.saves more s.started s.queries id o s.loop h (λ row e. (new row e).0)
        sound.waiting;
  known = λ q row e. elim (Bool-cases (q == id)) [
    | inl same ↦ (new row (rw same at e)).1
    | inr n ↦ let b = sound.known q row (rw n at e) in omega (arith, b, h)
  ];
  old = λ e m. let b = sound.old e m in omega (arith, b, h);
}

-- A query that was advanced is started.
pub start_due-Sound :
    (s : Scheduler) (now id : ℕ) (item : Scheduled) (rest : List (ℕ × Scheduled))
    → s.loop ≡ starting now id item rest
    → Sound s
    → Sound (start_due now id item rest s)
unfolding start_due start_scheduled
start_due-Sound s now id item rest at_start sound =
    let ((due, at, low, behind, ahead, time, below), absent, left) =
      subst (Waiting s.saves s.started s.queries) at_start sound.waiting in
    elim (Bool-cases (s.running id || s.stopped)) [
      | inl e ↦ rw e (loop-Sound s (pending now rest) left sound)
      | inr e ↦
          rw (e, at)
            (record {
              one = started_one id s e sound;
              starts = (behind, sound.starts);
              in_time = ((low, time), sound.in_time);
              ahead = λ f m. elim m [
                | inl x ↦ subst (λ g. Ahead s.queries g.query g.version g.due) (sym x) ahead
                | inr n ↦ sound.ahead f n
              ];
              waiting =
                  Listed-started
                    (record {
                      query = id;
                      version = item.version;
                      due = due;
                      at = now;
                      catch_up = item.catch_up;
                    })
                    s.saves s.started s.queries now rest absent left;
              known = sound.known;
              old = λ f m. elim m [
                | inl x ↦ subst (λ g. g.version < s.saves) (sym x) below
                | inr n ↦ sound.old f n
              ];
            })
    ]
