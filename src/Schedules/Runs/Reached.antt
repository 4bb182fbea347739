-- ===== src/Schedules/Runs/Reached.antt =====
-- What the scheduler has started: rowset-core/internal/api/scheduler.go.
use rowset_studio.Common.{
  ℕ, ◌+◌, ◌*◌, ◌≡◌, ◌≤◌, ◌<◌, ◌⊎◌, inl, inr, refl, sym, subst, ap, ◌∙◌, Bool, true, false, Option,
  none, some, List, ◌∷◌, Bytes, All, update, update_self, if◌then◌else◌, Bool-cases, Option-cases,
  arith, suc, ltb, ltb→lt, ◌==◌,
}
use rowset_studio.Schedules.{ScheduleSpec, Calendar}
use rowset_studio.Schedules.Runs.{
  schedule_tick, whole_seconds, Scheduled, idle, pending, starting, Scheduler, new_scheduler,
  set_next_run, is_missed, next_run_string, advance, Step, tick_step, advance_step, start_step,
  rest_step, manual_step, end_step, delete_step, stop_step, Reach, here, next, save_step,
  save_scheduled, first_version,
}
use rowset_studio.Schedules.Runs.Ordered.{
  Before, Behind, Rising, IsInTime, IsSince, IsAhead, Listed, Waiting, Absent, Sound, floor_below,
  AreDue-Listed, Listed-Follows,
}
use rowset_studio.Schedules.Runs.Once.{
  loop-Sound, start_scheduled-Sound, end_run-Sound, save-Sound, start_due-Sound, Ahead-update,
  Follows-update,
}
use rowset_studio.Schedules.Runs.Later.{next_run_string-After}

module _ (calendar : Calendar) (decode : Bytes → Option ScheduleSpec)
    (whole : (zone : Bytes) (after offset : ℕ) (at : ℕ × ℕ)
      → whole_seconds (calendar.date_at zone after offset at)
        ≡ calendar.date_at zone after offset at) where
  -- A row whose next run was set is ahead of what was due by then.
  set_next_run-IsAhead :
      (o : Option Scheduled) (t v due : ℕ) (row : Scheduled)
      → set_next_run (some t) o ≡ some row
      → ((old : Scheduled) → o ≡ some old → (v < old.version) ⊎ ((v ≡ old.version) × (due < t)))
      → IsAhead row v due
  set_next_run-IsAhead none t v due row e h = absurd (ground (arith, e))
  set_next_run-IsAhead (some old) t v due row e h =
      subst (λ r. IsAhead r v due)
        (let same : record old { next_run_at = some t } ≡ row = cc in same)
        (elim (h old refl) [
          | inl l ↦ inl l
          | inr (same, later) ↦
              inr (
                same,
                λ u at. let equal : t ≡ u = ground (arith, at) in omega (arith, equal, later),
              )
        ])

  set_next_run-version :
      (o : Option Scheduled) (t : ℕ) (row : Scheduled)
      → set_next_run (some t) o ≡ some row
      → (old : Scheduled) × (o ≡ some old) × (old.version ≡ row.version)
  set_next_run-version none t row e = absurd (ground (arith, e))
  set_next_run-version (some old) t row e =
      let same : record old { next_run_at = some t } ≡ row = cc in
      (old, refl, ap (λ r. r.version) same)

  -- What comes before a version that the row has or had, and before a due time, comes before the row's
  -- next run.
  Before-set :
      (e_version e_due version due t row_version now : ℕ)
      → Before e_version e_due version due
      → due ≤ now
      → now < t
      → version ≤ row_version
      → (e_version < row_version) ⊎ ((e_version ≡ row_version) × (e_due < t))
  Before-set e_version e_due version due t row_version now (inl l) low later since =
      inl (omega (arith, l, since))
  Before-set e_version e_due version due t row_version now (inr (same, less)) low later since =
      elim (Bool-cases (ltb version row_version)) [
        | inl y ↦ let l = ltb→lt version row_version y in inl (omega (arith, l, same))
        | inr n ↦ inr (ground (arith, n, same, since), omega (arith, less, low, later))
      ]

  window :
      (now due : ℕ) (item : Scheduled)
      → item.next_run_at ≡ some due
      → is_missed now item ≡ false
      → (now ≤ due + 2 * schedule_tick) ⊎ (item.catch_up ≡ true)
  unfolding is_missed
  window now due item at e = elim (Bool-cases (item.catch_up)) [
    | inl c ↦ inr c
    | inr c ↦ inl (let x = rw (at, c) at e in ground (arith, x))
  ]

  at_least :
      (version due t row_version now : ℕ)
      → due ≤ now
      → now < t
      → version ≤ row_version
      → (version < row_version) ⊎ ((version ≡ row_version) × (due < t))
  at_least version due t row_version now low later since =
      elim (Bool-cases (ltb version row_version)) [
        | inl y ↦ inl (ltb→lt version row_version y)
        | inr n ↦ inr (ground (arith, n, since), omega (arith, low, later))
      ]

  saved-Sound :
      (s : Scheduler) (t now id : ℕ) (item : Scheduled) (rest : List (ℕ × Scheduled)) (due : ℕ)
      → now < t
      → item.next_run_at ≡ some due
      → due ≤ whole_seconds now
      → Behind s.started id item.version due
      → item.version < s.saves
      → IsSince s.queries id item.version
      → Absent id rest
      → Listed s.saves s.started s.queries now rest
      → Sound s
      → Sound (record s {
        queries = update s.queries id (set_next_run (some t) (s.queries id));
        loop = if is_missed now item then pending now rest else starting now id item rest;
      })
  saved-Sound s t now id item rest due later at low behind below since absent left sound =
      let by_now : due ≤ now = omega (arith, floor_below now, low) in
      let set = set_next_run (some t) (s.queries id) in
      let versions = set_next_run-version (s.queries id) t in
      let kept =
        Listed-Follows s.saves s.saves s.started s.queries (update s.queries id set) now rest
          (Follows-update s.saves s.queries id set (λ row x. inr (versions row x))) (omega arith)
          left in
      record {
        one = sound.one;
        starts = sound.starts;
        in_time = sound.in_time;
        ahead = λ e m.
            Ahead-update s.queries id set e.query e.version e.due
              (λ same row x. set_next_run-IsAhead (s.queries id) t e.version e.due row x (λ old o.
                Before-set e.version e.due item.version due t old.version now (behind e m same)
                  by_now later (since old o)))
              (sound.ahead e m);
        waiting = elim (Bool-cases (is_missed now item)) [
          | inl y ↦ rw y kept
          | inr n ↦ rw n (
            (
              due,
              at,
              by_now,
              behind,
              λ row x.
                  set_next_run-IsAhead (s.queries id) t item.version due row
                    (sym (update_self s.queries id set) ∙ x)
                    (λ old o.
                      at_least item.version due t old.version now by_now later (since old o)),
              window now due item at n,
              below,
            ),
            absent,
            kept,
          )
        ];
        known = λ q row x. elim (Bool-cases (q == id)) [
          | inl same ↦
              let (old, o, v) = versions row (rw same at x) in
              let b = sound.known id old o in omega (arith, b, v)
          | inr n ↦ sound.known q row (rw n at x)
        ];
        old = sound.old;
      }

  advance-Sound :
      (s : Scheduler) (stored : Bool) (now id : ℕ) (item : Scheduled) (rest : List (ℕ × Scheduled))
      → s.loop ≡ pending now ((id, item) ∷ rest)
      → Sound s
      → Sound (advance calendar decode stored now id item rest s)
  unfolding advance
  advance-Sound s stored now id item rest at_pending sound =
      let ((due, at, low, behind, below, since), absent, left) =
        subst (Waiting s.saves s.started s.queries) at_pending sound.waiting in
      let skip = loop-Sound s (pending now rest) left sound in
      elim (Option-cases (decode item.schedule)) [
        | inl n ↦ rw (advance, n) skip
        | inr (spec, d) ↦ elim (Option-cases (next_run_string calendar decode spec true now)) [
          | inl n ↦ rw (advance, d, n) skip
          | inr (following, r) ↦
              let (t, is_t, later) =
                next_run_string-After calendar decode whole spec now following r in
              elim (Bool-cases stored) [
                | inr n ↦ rw (advance, d, r, n) skip
                | inl y ↦
                    rw (advance, d, r, y, is_t)
                      (saved-Sound s t now id item rest due later at low behind below since absent
                        left sound)
              ]
        ]
      ]

  saved_version :
      (row r : Scheduled) (saves : ℕ)
      → ◌≡◌ {A = Option Scheduled} (some (record row { version = saves })) (some r)
      → (saves ≤ r.version) × (r.version < suc saves)
  saved_version row r saves e =
      let same : record row { version = saves } ≡ r = cc in
      let equal : saves ≡ r.version = ap (λ x. x.version) same in
      (omega (arith, equal), omega (arith, equal))

  first_version-zero :
      (o : Option Scheduled) (row : Scheduled) → first_version o ≡ some row → row.version < 1
  first_version-zero none row e = absurd (ground (arith, e))
  first_version-zero (some old) row e =
      let same : record old { version = 0 } ≡ row = cc in
      let equal : 0 ≡ row.version = ap (λ x. x.version) same in omega (arith, equal)

  Step-Sound : {s t : Scheduler} → Step calendar decode s t → Sound s → Sound t
  unfolding save_scheduled
  Step-Sound (tick_step s now items at_idle due) sound =
      loop-Sound s (pending now items) (AreDue-Listed s now items sound due) sound
  Step-Sound (advance_step s stored now id item rest w) sound =
      advance-Sound s stored now id item rest w sound
  Step-Sound (start_step s now id item rest w) sound = start_due-Sound s now id item rest w sound
  Step-Sound (rest_step s now w) sound = loop-Sound s idle _ sound
  Step-Sound (manual_step s id) sound = start_scheduled-Sound id s sound
  Step-Sound (end_step s id others w) sound = end_run-Sound id others s w sound
  Step-Sound (delete_step s id) sound =
      save-Sound s id s.saves none (omega arith) (λ row e. absurd (ground (arith, e))) sound
  Step-Sound (save_step s id row) sound =
      save-Sound s id (suc s.saves) (some (record row { version = s.saves })) (omega arith)
        (λ r e. saved_version row r s.saves e) sound
  Step-Sound (stop_step s) sound = record {
    one = sound.one;
    starts = sound.starts;
    in_time = sound.in_time;
    ahead = sound.ahead;
    waiting = sound.waiting;
    known = sound.known;
    old = sound.old;
  }

  new_scheduler-Sound : (queries : ℕ → Option Scheduled) → Sound (new_scheduler queries)
  unfolding new_scheduler
  new_scheduler-Sound queries = record {
    one = λ id. refl;
    starts = _;
    in_time = _;
    ahead = λ e m. elim m [ ];
    waiting = _;
    known = λ id row e. first_version-zero (queries id) row e;
    old = λ e m. elim m [ ];
  }

  Reach-Sound :
      {queries : ℕ → Option Scheduled} {s : Scheduler} → Reach calendar decode queries s → Sound s
  Reach-Sound {queries = queries} here = new_scheduler-Sound queries
  Reach-Sound (next r step) = Step-Sound step (Reach-Sound r)

  at_most_one : (running : Bool) (n : ℕ) → n ≡ (if running then 1 else 0) → n ≤ 1
  at_most_one true n e = omega (arith, e)
  at_most_one false n e = omega (arith, e)

  -- In every interleaving of the scheduler with its runs and with requests to run, save or delete queries, no
  -- query has two runs at a time; the runs of a query that the scheduler starts come in the order of the saved
  -- versions that its ticks have read, and those of one version in the order of their due times, so no version
  -- is started twice for one due time; and each was due by the time of its tick, which is at most 30 seconds
  -- later if its query does not catch up. Given that the times of the calendar are whole seconds.
  pub Reach-Once :
      {queries : ℕ → Option Scheduled} {s : Scheduler}
      → Reach calendar decode queries s
      → ((id : ℕ) → s.workers id ≤ 1) × Rising s.started × All IsInTime s.started
  Reach-Once {s = s} r =
      let sound = Reach-Sound r in
      (λ id. at_most_one (s.running id) (s.workers id) (sound.one id), sound.starts, sound.in_time)
