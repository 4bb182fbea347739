-- ===== src/Schedules.antt =====
-- When a scheduled query runs: `scheduleSpec` of rowset-core/internal/api/schedule.go. The calendar of
-- Go's package time is a parameter; a time is a number of nanoseconds.
pub mod NextRun
pub mod Runs
use rowset_studio.Common.{
  ℕ, zero, suc, ◌+◌, ◌*◌, ◌/◌, ◌==◌, Bool, true, false, not, ◌&&◌, ◌||◌, Option, none, some, List,
  [], ◌∷◌, Bytes, is_word, bytes_eq, any, all, ltb, leb, if◌then◌else◌, ℤ, pos, negsuc,
}
use rowset_studio.Governance.Clock.{parse_clock}

pub record ScheduleSpec : Type 0 where
  pub kind : Bytes
  pub time : Bytes
  pub days : List ℤ
  pub every_minutes : ℤ
  pub timezone : Bytes

-- What the source uses of time zones: whether LoadLocation knows one; the time.Date of an hour and
-- minute on the local day that is a number of days after a time; the hour and minute, and the weekday,
-- of a time.
pub record Calendar : Type 0 where
  pub known : Bytes → Bool
  pub date_at : Bytes → ℕ → ℕ → ℕ × ℕ → ℕ
  pub clock_of : Bytes → ℕ → ℕ × ℕ
  pub weekday_of : Bytes → ℕ → ℕ

abbrev pub second : ℕ
second = 1000000000

abbrev pub minute : ℕ
minute = 60 * second

abbrev pub is_set : Bytes → Bool
is_set [] = false
is_set (c ∷ cs) = true

-- A number from `low` to `high`.
unfoldable pub in_range : ℕ → ℕ → ℤ → Bool
in_range low high (pos n) = leb low n && leb n high
in_range low high (negsuc n) = false

abbrev pub has_clock : Option (ℕ × ℕ) → Bool
has_clock none = false
has_clock (some m) = true

abbrev pub has_days : List ℤ → Bool
has_days [] = false
has_days (d ∷ ds) = true

-- `containsDay`.
abbrev same_day : ℕ → ℤ → Bool
same_day day (pos n) = n == day
same_day day (negsuc n) = false

unfoldable pub contains_day : List ℤ → ℕ → Bool
contains_day days day = any (same_day day) days

abbrev pub minutes_of : ℤ → ℕ
minutes_of (pos n) = n
minutes_of (negsuc n) = 0

module _ (calendar : Calendar) where
  -- `validate`.
  unfoldable pub validate : ScheduleSpec → Bool
  unfolding bytes_eq in_range
  validate spec =
      if not (calendar.known spec.timezone) || not (is_set spec.timezone)
      then false
      else if is_word spec.kind "interval"
      then in_range 5 (7 * 24 * 60) spec.every_minutes
      else if is_word spec.kind "daily"
      then has_clock (parse_clock spec.time)
      else if is_word spec.kind "weekly"
      then has_clock (parse_clock spec.time) && has_days spec.days && all (in_range 0 6) spec.days
      else false

  -- The candidate at an offset of days, moved forward where the clocks were.
  unfoldable pub candidate : Bytes → ℕ → ℕ × ℕ → ℕ → ℕ
  candidate zone after at offset =
      let shown = calendar.clock_of zone (calendar.date_at zone after offset at) in
      let date = calendar.date_at zone after offset at in
      if shown.0 == at.0 && shown.1 == at.1 then date else date + 60 * minute

  -- The loop of `next` over the offsets that remain.
  unfoldable pub next_loop : ScheduleSpec → ℕ → ℕ × ℕ → ℕ → ℕ → Option ℕ
  unfolding candidate bytes_eq contains_day
  next_loop spec after at zero offset = none
  next_loop spec after at (suc remaining) offset =
      let rest = next_loop spec after at remaining (suc offset) in
      let time = candidate spec.timezone after at offset in
      if not (ltb after time)
      then rest
      else if is_word spec.kind "weekly"
          && not (contains_day spec.days (calendar.weekday_of spec.timezone time))
      then rest
      else some time

  -- `next`; `none` is its error.
  unfoldable pub next_run : ScheduleSpec → ℕ → Option ℕ
  unfolding validate bytes_eq next_loop
  next_run spec after =
      if not (validate spec)
      then none
      else if is_word spec.kind "interval"
      then some (((after + minutes_of spec.every_minutes * minute) / second) * second)
      else elim (parse_clock spec.time) [ none ↦ none | some at ↦ next_loop spec after at 9 0 ]
