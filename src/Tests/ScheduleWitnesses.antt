-- ===== src/Tests/ScheduleWitnesses.antt =====
-- The theorems on schedules, applied to a weekly one in UTC and to a run of the scheduler.
use rowset_studio.Common.{
  ℕ, ◌+◌, ◌*◌, ◌/◌, ◌%◌, ◌≤◌, ◌<◌, ◌≡◌, refl, sym, subst, ap, ◌∙◌, true, some, [], ◌∷◌, codes,
  bytes_eq, pos, arith, Bytes, Option, none, false, ◌==◌, if◌then◌else◌, All,
}
use rowset_studio.Governance.Clock.{parse_clock}
use rowset_studio.Schedules.{ScheduleSpec, Calendar, candidate, next_run, validate, in_range}
use rowset_studio.Schedules.Runs.{
  Scheduled, Scheduler, new_scheduler, pending, advance, next_run_string, is_missed, start_due,
  start_scheduled, whole_seconds, Reach, here, next, tick_step, advance_step, start_step,
}
use rowset_studio.Schedules.Runs.Ordered.{Rising, IsInTime}
use rowset_studio.Schedules.Runs.Reached.{Reach-Once}
use rowset_studio.Schedules.NextRun.{Later, next_run-Later}

abbrev hour : ℕ
hour = 3600000000000

abbrev day : ℕ
day = 86400000000000

-- Days of 24 hours.
abbrev utc : Calendar
utc = record {
  known = λ zone. true;
  date_at =
      λ zone after offset at. (after / day + offset) * day + (at.0 * hour + at.1 * 60000000000);
  clock_of = λ zone time. ((time % day) / hour, (time % hour) / 60000000000);
  weekday_of = λ zone time. (time / day) % 7;
}

-- Mondays and Fridays at half past nine.
abbrev weekly : ScheduleSpec
weekly = record {
  kind = codes "weekly";
  time = codes "09:30";
  days = pos 1 ∷ pos 5 ∷ [];
  every_minutes = pos 0;
  timezone = codes "UTC";
}

abbrev now : ℕ
now = 20 * day + 5 * hour

abbrev start : ℕ → ℕ
start k = (20 + k) * 86400000000000 + 34200000000000

start-hour : (k : ℕ) → (start k % 86400000000000) / 3600000000000 ≡ 9
start-hour k = omega arith

start-minute : (k : ℕ) → (start k % 3600000000000) / 60000000000 ≡ 30
start-minute k = omega arith

start-day : (k : ℕ) → start k / 86400000000000 ≡ 20 + k
start-day k = omega arith

half_past_nine : (k : ℕ) → candidate utc (codes "UTC") now (9, 30) k ≡ start k
unfolding candidate
half_past_nine k = rw (start-hour k, start-minute k) refl

clock_time : (at : ℕ × ℕ) → parse_clock weekly.time ≡ some at → (9, 30) ≡ at
unfolding parse_clock
clock_time at e = cc

weekly_valid : validate utc weekly ≡ true
unfolding validate parse_clock bytes_eq in_range
weekly_valid = refl

later_days :
    (at : ℕ × ℕ) (k : ℕ)
    → parse_clock weekly.time ≡ some at
    → 1 ≤ k
    → now < candidate utc weekly.timezone now at k
later_days at k e h =
    subst (λ t. now < candidate utc (codes "UTC") now t k) (clock_time at e)
      (subst (λ t. now < t) (sym (half_past_nine k)) (omega arith))

following_days :
    (at : ℕ × ℕ)
    → parse_clock weekly.time ≡ some at
    → (w : ℕ) × ((k : ℕ)
        → utc.weekday_of weekly.timezone (candidate utc weekly.timezone now at k) ≡ (w + k) % 7)
following_days at e = (
  20,
  λ k.
      subst (λ t. (candidate utc (codes "UTC") now t k / day) % 7 ≡ (20 + k) % 7) (clock_time at e)
        (ap (λ t. (t / day) % 7) (half_past_nine k) ∙ ap (λ d. d % 7) (start-day k)),
)

next_run-Later_example : Later now (next_run utc weekly now)
next_run-Later_example = next_run-Later utc weekly now later_days following_days weekly_valid

-- A query of every five minutes that is due at 1000 s, and a tick nine seconds later.
abbrev every_five : ScheduleSpec
every_five = record {
  kind = codes "interval";
  time = [];
  days = [];
  every_minutes = pos 5;
  timezone = codes "UTC";
}

abbrev decode : Bytes → Option ScheduleSpec
decode text = some every_five

abbrev report : Scheduled
report = record {
  schedule = [];
  catch_up = false;
  enabled = true;
  next_run_at = some 1000000000000;
  version = 0;
}

abbrev table : ℕ → Option Scheduled
table id = if id == 7 then some report else none

abbrev tick : ℕ
tick = 1009000000000

abbrev ticked : Scheduler
ticked = record (new_scheduler table) { loop = pending tick ((7, report) ∷ []) }

abbrev advanced : Scheduler
advanced = advance utc decode true tick 7 report [] ticked

abbrev begun : Scheduler
begun = start_due tick 7 report [] advanced

begun-Reach : Reach utc decode table begun
unfolding new_scheduler advance next_run_string is_missed start_due start_scheduled next_run
    validate bytes_eq in_range
begun-Reach =
    next
      (next
        (next here (
          tick_step (new_scheduler table) tick ((7, report) ∷ []) refl
            (refl, (1000000000000, refl, refl, omega arith), (λ other m e. elim m [ ]), _)))
        (advance_step ticked true tick 7 report [] refl))
      (start_step advanced tick 7 report [] refl)

whole_days :
    (zone : Bytes) (after offset : ℕ) (at : ℕ × ℕ)
    → whole_seconds (utc.date_at zone after offset at) ≡ utc.date_at zone after offset at
whole_days zone after offset at = omega arith

begun-started :
    begun.started
    ≡ record { query = 7; version = 0; due = 1000000000000; at = tick; catch_up = false } ∷ []
unfolding new_scheduler advance next_run_string is_missed start_due start_scheduled next_run
    validate bytes_eq in_range
begun-started = refl

Reach-Once_example :
    ((id : ℕ) → begun.workers id ≤ 1) × Rising begun.started × All IsInTime begun.started
Reach-Once_example = Reach-Once utc decode whole_days begun-Reach
