-- ===== src/Tests/MultiRunWitnesses.antt =====
-- A run of one statement on one connection: rowset-core/internal/api/multirun.go.
use rowset_studio.Common.{
  ℕ, zero, ◌≡◌, refl, List, [], ◌∷◌, Bytes, codes, pos, some, trim_space, suc, ◌<◌, arith, update,
}
use rowset_studio.MultiRun.{
  MultiRun, success, gone, running, new_run, take_target, begin_statement, end_target, take_step,
  statement_step, succeed_step, finish_step, Reach, here, next, accept_run, statements_of,
  workers_for,
}
use rowset_studio.MultiRun.Targets.{Settled}
use rowset_studio.MultiRun.Ended.{accept_run-Settled}

abbrev script : List Bytes
script = codes "SELECT 1" ∷ []

abbrev taken : MultiRun
taken = take_target 1 script 0 (new_run 1)

abbrev begun : MultiRun
begun = begin_statement 0 0 (codes "SELECT 1") [] taken

abbrev answered : MultiRun
answered = record begun { workers = update begun.workers 0 (running 0 []) }

abbrev ended : MultiRun
ended = take_target 1 script 0 (end_target 0 0 success answered)

ended-Reach : Reach 1 script 1 ended
unfolding new_run take_target begin_statement end_target
ended-Reach =
    next
      (next
        (next
          (next (next here (take_step (new_run 1) 0 refl))
            (statement_step taken 0 0 (codes "SELECT 1") [] refl refl))
          (succeed_step begun 0 0 [] refl))
        (finish_step answered 0 0 refl))
      (take_step (end_target 0 0 success answered) 0 refl)

ended-gone : (p : ℕ) → p < 1 → ended.workers p ≡ gone
unfolding new_run take_target begin_statement end_target
ended-gone zero h = refl
ended-gone (suc p) h = absurd (omega arith)

accepted : accept_run (codes "c1" ∷ []) (codes " SELECT 1 " ∷ []) (pos 3) ≡ some (script, 1)
unfolding accept_run statements_of workers_for trim_space
accepted = refl

accept_run-Settled_example : Settled 1 script 1 ended 0
accept_run-Settled_example =
    accept_run-Settled (codes "c1" ∷ []) (codes " SELECT 1 " ∷ []) (pos 3) script 1 accepted
      ended-Reach ended-gone 0 (omega arith)
