-- ===== src/Schedules/Runs/Ordered.antt =====
-- The order of the runs that the scheduler starts, and what its loop has in front of it:
-- rowset-core/internal/api/scheduler.go.
use rowset_studio.Common.{
  ℕ, ◌+◌, ◌*◌, ◌≡◌, ◌≤◌, ◌<◌, ◌⊎◌, inl, inr, refl, sym, ap, ◌∙◌, true, Option, none, some, List, [],
  ◌∷◌, All, Member, if◌then◌else◌, arith,
}
use rowset_studio.Schedules.Runs.{
  schedule_tick, whole_seconds, Scheduled, Start, Loop, idle, pending, starting, Scheduler, AreDue,
}

-- A version of a query and a due time come before others.
abbrev pub Before : ℕ → ℕ → ℕ → ℕ → Type 0
Before version due later_version later =
    (version < later_version) ⊎ ((version ≡ later_version) × (due < later))

-- The runs of a query that were started come before a version and a due time.
abbrev pub Behind : List Start → ℕ → ℕ → ℕ → Type 0
Behind started id version due =
    (e : Start) → Member e started → e.query ≡ id → Before e.version e.due version due

-- Each run of a query is of a later version than the runs of it that were started before, or of the same
-- version and was due later.
abbrev pub Rising : List Start → Type 0
Rising [] = Unit
Rising (e ∷ es) = Behind es e.query e.version e.due × Rising es

-- A run was due, and it was missed by two ticks at most if its query does not catch up.
abbrev pub IsInTime : Start → Type 0
IsInTime e = (e.due ≤ e.at) × ((e.at ≤ e.due + 2 * schedule_tick) ⊎ (e.catch_up ≡ true))

abbrev pub Absent : ℕ → List (ℕ × Scheduled) → Type 0
Absent id rows = (other : ℕ × Scheduled) → Member other rows → other.0 ≡ id → ⊥

-- The row of a query, if it has one, is of a version or a later one.
abbrev pub IsSince : (ℕ → Option Scheduled) → ℕ → ℕ → Type 0
IsSince queries id version = (row : Scheduled) → queries id ≡ some row → version ≤ row.version

-- The queries that are left of a tick: due, and behind no run that was started.
abbrev pub Listed : ℕ → List Start → (ℕ → Option Scheduled) → ℕ → List (ℕ × Scheduled) → Type 0
Listed saves started queries now [] = Unit
Listed saves started queries now (row ∷ rows) =
    ((due : ℕ) × (row.1.next_run_at ≡ some due)
      × (due ≤ whole_seconds now)
      × Behind started row.0 row.1.version due
      × (row.1.version < saves)
      × IsSince queries row.0 row.1.version)
    × Absent row.0 rows
    × Listed saves started queries now rows

-- A run comes before the row of its query.
abbrev pub IsAhead : Scheduled → ℕ → ℕ → Type 0
IsAhead row version due =
    (version < row.version)
    ⊎ ((version ≡ row.version) × ((t : ℕ) → row.next_run_at ≡ some t → due < t))

abbrev pub Ahead : (ℕ → Option Scheduled) → ℕ → ℕ → ℕ → Type 0
Ahead queries id version due = (row : Scheduled) → queries id ≡ some row → IsAhead row version due

abbrev pub Waiting : ℕ → List Start → (ℕ → Option Scheduled) → Loop → Type 0
Waiting saves started queries idle = Unit
Waiting saves started queries (pending now items) = Listed saves started queries now items
Waiting saves started queries (starting now id item rest) =
    ((due : ℕ) × (item.next_run_at ≡ some due)
      × (due ≤ now)
      × Behind started id item.version due
      × Ahead queries id item.version due
      × ((now ≤ due + 2 * schedule_tick) ⊎ (item.catch_up ≡ true))
      × (item.version < saves))
    × Absent id rest
    × Listed saves started queries now rest

pub record Sound (s : Scheduler) : Type 0 where
  pub one : (id : ℕ) → s.workers id ≡ (if s.running id then 1 else 0)
  pub starts : Rising s.started
  pub in_time : All IsInTime s.started
  pub ahead : (e : Start) → Member e s.started → Ahead s.queries e.query e.version e.due
  pub waiting : Waiting s.saves s.started s.queries s.loop
  pub known : (id : ℕ) (row : Scheduled) → s.queries id ≡ some row → row.version < s.saves
  pub old : (e : Start) → Member e s.started → e.version < s.saves

pub floor_below : (t : ℕ) → whole_seconds t ≤ t
floor_below t = omega arith

pub Listed-started :
    (e : Start) (saves : ℕ) (started : List Start) (queries : ℕ → Option Scheduled) (now : ℕ)
    (rows : List (ℕ × Scheduled))
    → Absent e.query rows
    → Listed saves started queries now rows
    → Listed saves (e ∷ started) queries now rows
Listed-started e saves started queries now [] absent l = _
Listed-started e saves started queries now (row ∷ rows) absent
      ((due, at, low, behind, below, since), others, l) =
    (
      (
        due,
        at,
        low,
        λ f m same. elim m [
          | inl x ↦ absurd (absent row (inl refl) (sym same ∙ ap (λ g. g.query) x))
          | inr n ↦ behind f n same
        ],
        below,
        since,
      ),
      others,
      Listed-started e saves started queries now rows (λ other m. absent other (inr m)) l,
    )

-- Each row of a table is that of another one with its version, or was saved since.
abbrev pub Follows : ℕ → (ℕ → Option Scheduled) → (ℕ → Option Scheduled) → Type 0
Follows saves queries later =
    (id : ℕ) (row : Scheduled)
    → later id ≡ some row
    → (saves ≤ row.version)
      ⊎ ((old : Scheduled) × (queries id ≡ some old) × (old.version ≡ row.version))

IsSince-Follows :
    (saves : ℕ) (queries later : ℕ → Option Scheduled) (id version : ℕ)
    → Follows saves queries later
    → version < saves
    → IsSince queries id version
    → IsSince later id version
IsSince-Follows saves queries later id version f below since row e = elim (f id row e) [
  | inl l ↦ omega (arith, l, below)
  | inr (old, o, v) ↦ let s = since old o in omega (arith, s, v)
]

pub Listed-Follows :
    (saves more : ℕ) (started : List Start) (queries later : ℕ → Option Scheduled) (now : ℕ)
    (rows : List (ℕ × Scheduled))
    → Follows saves queries later
    → saves ≤ more
    → Listed saves started queries now rows
    → Listed more started later now rows
Listed-Follows saves more started queries later now [] f h l = _
Listed-Follows saves more started queries later now (row ∷ rows) f h
      ((due, at, low, behind, below, since), others, l) =
    (
      (
        due,
        at,
        low,
        behind,
        omega (arith, below, h),
        IsSince-Follows saves queries later row.0 row.1.version f below since,
      ),
      others,
      Listed-Follows saves more started queries later now rows f h l,
    )

version_of : Option Scheduled → ℕ
version_of none = 0
version_of (some row) = row.version

pub AreDue-Listed :
    (s : Scheduler) (now : ℕ) (rows : List (ℕ × Scheduled))
    → Sound s
    → AreDue s now rows
    → Listed s.saves s.started s.queries now rows
unfolding version_of
AreDue-Listed s now [] sound d = _
AreDue-Listed s now (row ∷ rows) sound (here_row, (due, on, at, low), others, d) = (
  (
    due,
    at,
    low,
    λ e m same. elim (sound.ahead e m row.1 (ap s.queries same ∙ here_row)) [
      | inl l ↦ inl l
      | inr (v, later) ↦ inr (v, later due at)
    ],
    sound.known row.0 row.1 here_row,
    λ r e.
        let equal : row.1.version ≡ r.version = ap version_of (sym here_row ∙ e) in
        omega (arith, equal),
  ),
  others,
  AreDue-Listed s now rows sound d,
)
