-- ===== src/Schedules/Runs/Later.antt =====
-- The next run that the scheduler stores: rowset-core/internal/api/schedule.go.
use rowset_studio.Common.{
  ℕ, suc, ◌+◌, ◌*◌, ◌/◌, ◌==◌, ◌≡◌, ◌<◌, inl, inr, sym, subst, ap, ◌∙◌, true, not, ◌&&◌, Option,
  some, Bytes, is_word, ltb, ltb→lt, zero, Bool-cases, Option-cases, arith,
}
use rowset_studio.Governance.Clock.{parse_clock}
use rowset_studio.Schedules.{
  ScheduleSpec, Calendar, candidate, contains_day, next_loop, next_run, second, validate,
  minutes_of,
}
use rowset_studio.Schedules.Runs.{whole_seconds, next_run_string}
use rowset_studio.Schedules.{in_range}
use rowset_studio.Schedules.NextRun.{interval_later}

module _ (calendar : Calendar) (decode : Bytes → Option ScheduleSpec)
    (whole : (zone : Bytes) (after offset : ℕ) (at : ℕ × ℕ)
      → whole_seconds (calendar.date_at zone after offset at)
        ≡ calendar.date_at zone after offset at) where
  abbrev pub After : ℕ → ℕ → Type 0
  After now t = (now < t) × (whole_seconds t ≡ t)

  candidate-whole :
      (zone : Bytes) (after : ℕ) (at : ℕ × ℕ) (offset : ℕ)
      → whole_seconds (candidate calendar zone after at offset)
        ≡ candidate calendar zone after at offset
  unfolding candidate
  candidate-whole zone after at offset =
      let date = calendar.date_at zone after offset at in
      let w = whole zone after offset at in
      let shown = calendar.clock_of zone date in
      elim (Bool-cases (shown.0 == at.0 && shown.1 == at.1)) [
        | inl e ↦ rw e w
        | inr e ↦ rw e (omega (arith, w))
      ]

  next_loop-After :
      (spec : ScheduleSpec) (after : ℕ) (at : ℕ × ℕ) (remaining offset t : ℕ)
      → next_loop calendar spec after at remaining offset ≡ some t
      → After after t
  unfolding next_loop
  next_loop-After spec after at zero offset t e = absurd (ground (arith, e))
  next_loop-After spec after at (suc remaining) offset t e =
      let time = candidate calendar spec.timezone after at offset in
      elim (Bool-cases (ltb after time)) [
        | inr n ↦ next_loop-After spec after at remaining (suc offset) t (rw n at e)
        | inl l ↦
            elim (Bool-cases (
              is_word spec.kind "weekly"
              && not (contains_day spec.days (calendar.weekday_of spec.timezone time)))) [
                | inl w ↦ next_loop-After spec after at remaining (suc offset) t (rw (l, w) at e)
                | inr n ↦
                    let same : time ≡ t = ground (arith, (rw (l, n) at e)) in
                    subst (After after) same
                      (ltb→lt after time l, candidate-whole spec.timezone after at offset)
              ]
      ]

  whole_twice : (n : ℕ) → whole_seconds ((n / second) * second) ≡ (n / second) * second
  whole_twice n = omega arith

  valid_every :
      (spec : ScheduleSpec)
      → is_word spec.kind "interval" ≡ true
      → validate calendar spec ≡ true
      → in_range 5 (7 * 24 * 60) spec.every_minutes ≡ true
  unfolding validate
  valid_every spec i valid = ground (arith, valid, i)

  next_run-After :
      (spec : ScheduleSpec) (after t : ℕ) → next_run calendar spec after ≡ some t → After after t
  unfolding next_run
  next_run-After spec after t e = elim (Bool-cases (validate calendar spec)) [
    | inr n ↦ absurd (ground (arith, rw n at e))
    | inl valid ↦ elim (Bool-cases (is_word spec.kind "interval")) [
      | inl i ↦
          let same : ((after + minutes_of spec.every_minutes * (60 * second)) / second) * second
              ≡ t =
            ground (arith, (rw (valid, i) at e)) in
          subst (After after) same (
            interval_later after spec.every_minutes (valid_every spec i valid),
            whole_twice (after + minutes_of spec.every_minutes * (60 * second)),
          )
      | inr i ↦ elim (Option-cases (parse_clock spec.time)) [
        | inl n ↦ absurd (ground (arith, rw (valid, i, n) at e))
        | inr (at, c) ↦ next_loop-After spec after at 9 0 t (rw (valid, i, c) at e)
      ]
    ]
  ]

  -- The next run that is stored is later than the given time.
  pub next_run_string-After :
      (spec : ScheduleSpec) (now : ℕ) (following : Option ℕ)
      → next_run_string calendar decode spec true now ≡ some following
      → (t : ℕ) × (following ≡ some t) × (now < t)
  unfolding next_run_string
  next_run_string-After spec now following e = elim (Option-cases (next_run calendar spec now)) [
    | inl n ↦ absurd (ground (arith, rw n at e))
    | inr (t, r) ↦
        let (later, same) = next_run-After spec now t r in
        let stored : some t ≡ following = ap some (sym same) ∙ ground (arith, (rw r at e)) in
        (t, sym stored, later)
  ]
