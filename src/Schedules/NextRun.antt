-- ===== src/Schedules/NextRun.antt =====
-- A valid schedule always has a next run, and it is later.
use rowset_studio.Common.{
  ℕ, zero, suc, ◌+◌, ◌-◌, ◌*◌, ◌/◌, ◌%◌, ◌≤◌, ◌<◌, ◌≡◌, refl, ap, subst, ◌∙◌, sym, true, false, not,
  ◌&&◌, Option, none, some, List, [], ◌∷◌, Bytes, is_word, bytes_eq, bytes_eq_iff, codes, and-parts,
  leb→le, all, ltb, leb, ltb→lt, lt→ltb, ℤ, pos, negsuc, Bool-cases, inl, inr, arith,
}
use rowset_studio.Governance.Clock.{parse_clock}
use rowset_studio.Schedules.{
  ScheduleSpec, Calendar, in_range, minutes_of, has_clock, has_days, contains_day, validate,
  candidate, next_loop, next_run,
}

-- The candidate is one that `next` takes.
unfoldable Taken : Calendar → ScheduleSpec → ℕ → ℕ × ℕ → ℕ → Type 0
unfolding candidate bytes_eq contains_day
Taken calendar spec after at k =
    (after < candidate calendar spec.timezone after at k)
    × ((is_word spec.kind "weekly"
          && not (
              contains_day spec.days
                (calendar.weekday_of spec.timezone (candidate calendar spec.timezone after at k))))
        ≡ false)

abbrev pub Later : ℕ → Option ℕ → Type 0
Later after o = (time : ℕ) × (o ≡ some time) × (after < time)

module _ (calendar : Calendar) (spec : ScheduleSpec) (after : ℕ) (at : ℕ × ℕ) where
  next_loop-Later :
      (remaining offset k : ℕ)
      → Taken calendar spec after at (offset + k)
      → k < remaining
      → Later after (next_loop calendar spec after at remaining offset)
  unfolding next_loop Taken
  next_loop-Later zero offset k t h = absurd (omega arith)
  next_loop-Later (suc remaining) offset zero t h =
      let now =
        subst (Taken calendar spec after at) (let e : offset + zero ≡ offset = omega arith in e)
          t in
      let time = candidate calendar spec.timezone after at offset in
      rw (lt→ltb after time now.0, now.1) (time, refl, now.0)
  next_loop-Later (suc remaining) offset (suc k) t h =
      let later =
        next_loop-Later remaining (suc offset) k
          (subst (Taken calendar spec after at)
            (let e : offset + suc k ≡ suc offset + k = omega arith in e) t)
          (omega arith) in
      let time = candidate calendar spec.timezone after at offset in
      elim (Bool-cases (ltb after time)) [
        | inl l ↦
            elim (Bool-cases (
              is_word spec.kind "weekly"
              && not (contains_day spec.days (calendar.weekday_of spec.timezone time)))) [
                | inr n ↦ rw (l, n) (time, refl, ltb→lt after time l)
                | inl w ↦ rw (l, w) later
              ]
        | inr n ↦ rw n later
      ]

-- A day of the week is one of the seven behind any day.
day_of_seven : (w d : ℕ) → d < 7 → (k : ℕ) × (1 ≤ k) × (k ≤ 7) × ((w + k) % 7 ≡ d)
day_of_seven w d h = (1 + (d + (6 - w % 7)) % 7, omega arith, omega arith, omega arith)

contains_day-first :
    (days : List ℤ)
    → has_days days ≡ true
    → all (in_range 0 6) days ≡ true
    → (d : ℕ) × (d < 7) × (contains_day days d ≡ true)
unfolding in_range contains_day
contains_day-first [] h r = absurd (ground arith)
contains_day-first (pos n ∷ days) h r = (n, ground arith, ground arith)
contains_day-first (negsuc n ∷ days) h r = absurd (ground arith)

pub interval_later :
    (after : ℕ) (every : ℤ)
    → in_range 5 (7 * 24 * 60) every ≡ true
    → after < ((after + minutes_of every * (60 * 1000000000)) / 1000000000) * 1000000000
unfolding in_range
interval_later after (pos n) h =
    let five : 5 ≤ n = leb→le 5 n (and-parts (leb 5 n) (leb n (7 * 24 * 60)) h).0 in
    omega (arith, five)
interval_later after (negsuc n) h = absurd (ground arith)

-- A weekly schedule is no daily one.
weekly_ne_daily : (kind : Bytes) → is_word kind "weekly" ≡ true → is_word kind "daily" ≡ false
weekly_ne_daily kind h =
    subst (λ k. is_word k "daily" ≡ false) (sym ((bytes_eq_iff kind (codes "weekly")).0 h))
      (unfold bytes_eq in refl)

has_clock-some : (o : Option (ℕ × ℕ)) → has_clock o ≡ true → (at : ℕ × ℕ) × (o ≡ some at)
has_clock-some none h = absurd (ground arith)
has_clock-some (some at) h = (at, refl)

module _ (calendar : Calendar) (spec : ScheduleSpec) (after : ℕ) where
  valid_clock :
      validate calendar spec ≡ true
      → is_word spec.kind "interval" ≡ false
      → has_clock (parse_clock spec.time) ≡ true
  unfolding validate
  valid_clock valid i = ground (arith, valid, i)

  valid_days :
      validate calendar spec ≡ true
      → is_word spec.kind "interval" ≡ false
      → is_word spec.kind "weekly" ≡ true
      → (has_days spec.days ≡ true) × (all (in_range 0 6) spec.days ≡ true)
  unfolding validate
  valid_days valid i w =
      let d = weekly_ne_daily spec.kind w in
      (ground (arith, valid, i, w, d), ground (arith, valid, i, w, d))

  valid_range :
      validate calendar spec ≡ true
      → is_word spec.kind "interval" ≡ true
      → in_range 5 (7 * 24 * 60) spec.every_minutes ≡ true
  unfolding validate
  valid_range valid i = ground (arith, valid, i)

  -- `next` finds a run for every schedule that `validate` accepts, and it is strictly later than the
  -- given time: given a calendar where the schedule's wall-clock time of a later day is later and
  -- where the weekdays of these times follow each other.
  pub next_run-Later :
      ((at : ℕ × ℕ) (k : ℕ)
        → parse_clock spec.time ≡ some at
        → 1 ≤ k
        → after < candidate calendar spec.timezone after at k)
      → ((at : ℕ × ℕ)
          → parse_clock spec.time ≡ some at
          → (w : ℕ) × ((k : ℕ)
              → calendar.weekday_of spec.timezone (candidate calendar spec.timezone after at k)
                ≡ (w + k) % 7))
      → validate calendar spec ≡ true
      → Later after (next_run calendar spec after)
  unfolding next_run Taken
  next_run-Later later weekdays valid = elim (Bool-cases (is_word spec.kind "interval")) [
    | inl i ↦ rw (valid, i) (_, refl, interval_later after spec.every_minutes (valid_range valid i))
    | inr i ↦
        let (at, clock) = has_clock-some (parse_clock spec.time) (valid_clock valid i) in
        rw (valid, i, clock)
          (elim (Bool-cases (is_word spec.kind "weekly")) [
            | inr n ↦
                next_loop-Later calendar spec after at 9 0 1
                  (later at 1 clock (omega arith), rw n refl) (omega arith)
            | inl w ↦
                let (has, range) = valid_days valid i w in
                let (d, seven, found) = contains_day-first spec.days has range in
                let (first, follow) = weekdays at clock in
                let (k, low, high, day) = day_of_seven first d seven in
                next_loop-Later calendar spec after at 9 0 k
                  (subst (Taken calendar spec after at) (let e : k ≡ 0 + k = omega arith in e) (
                    later at k clock low,
                    ground (arith, w, ap (contains_day spec.days) (follow k ∙ day) ∙ found),
                  ))
                  (omega (arith, high))
          ])
  ]
