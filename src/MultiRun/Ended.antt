-- ===== src/MultiRun/Ended.antt =====
-- What has become of each target when the workers have returned: rowset-core/internal/api/multirun.go.
use rowset_studio.Common.{
  ℕ, ◌≡◌, ◌≤◌, ◌<◌, refl, ap, ◌∙◌, Bool, true, false, none, some, List, [], ◌∷◌, ◌++◌, Bytes, ltb,
  update, update_self, if◌then◌else◌, ℤ, pos, negsuc, length, Bool-cases, Option-cases, inl, inr,
  arith,
}
use rowset_studio.Activity.Order.{append-append}
use rowset_studio.MultiRun.{
  success, cancelled, ready, gone, running, executing, MultiRun, new_run, take_target,
  begin_statement, failure, Step, take_step, stop_step, statement_step, succeed_step, fail_step,
  finish_step, cancel_step, Reach, here, next, accept_run, workers_for,
}
use rowset_studio.MultiRun.Targets.{task, no_task, Settled, Fair, take-Fair, leave-Fair}
use rowset_studio.MultiRun.Going.{keep-Fair, end-Fair}

module _ (targets : ℕ) (statements : List Bytes) (concurrency : ℕ) where
  abbrev IsFair : MultiRun → Type 0
  IsFair s = Fair targets statements concurrency s

  take_target-Fair :
      (s : MultiRun) (p : ℕ)
      → s.workers p ≡ ready
      → IsFair s
      → IsFair (take_target targets statements p s)
  unfolding take_target
  take_target-Fair s p w f = elim (Bool-cases (ltb s.next targets)) [
    | inl y ↦ rw y (take-Fair targets statements concurrency s p w (ground (arith, y)) f)
    | inr y ↦ rw y (leave-Fair targets statements concurrency s p w (ground (arith, y)) f)
  ]

  begin_statement-Fair :
      (s : MultiRun) (p i : ℕ) (sql : Bytes) (rest : List Bytes)
      → s.workers p ≡ running i (sql ∷ rest)
      → IsFair s
      → IsFair (begin_statement p i sql rest s)
  unfolding begin_statement
  begin_statement-Fair s p i sql rest w f =
      let before : task (s.workers p) ≡ some (i, sql ∷ rest) = ap task w in
      let split = (f.own p i (sql ∷ rest) before).3 in
      keep-Fair targets statements concurrency s p i (sql ∷ rest) rest (executing i rest)
        (update s.executed i (s.executed i ++ (sql ∷ []))) before refl
        (rw (update_self s.executed i (s.executed i ++ (sql ∷ [])))
          (append-append (s.executed i) (sql ∷ []) rest ∙ split))
        (λ j e. rw e refl) f

  cancel-Fair : (s : MultiRun) → IsFair s → IsFair (record s { stopped = true })
  cancel-Fair s f = record {
    unique = f.unique;
    own = f.own;
    untouched = f.untouched;
    settled = f.settled;
    returned = f.returned;
    outside = f.outside;
  }

  failure-Error : (stopped : Bool) (l : List Bytes) → failure stopped ≡ success → l ≡ []
  failure-Error true l e = absurd (ground (arith, e))
  failure-Error false l e = absurd (ground (arith, e))

  Step-Fair : {s t : MultiRun} → Step targets statements s t → IsFair s → IsFair t
  Step-Fair (take_step s p w) f = take_target-Fair s p w f
  Step-Fair (stop_step s p i sql rest w e) f =
      end-Fair targets statements concurrency s p i (sql ∷ rest) cancelled (ap task w)
        (λ n. absurd (ground (arith, n))) f
  Step-Fair (statement_step s p i sql rest w e) f = begin_statement-Fair s p i sql rest w f
  Step-Fair (succeed_step s p i rest w) f =
      let before : task (s.workers p) ≡ some (i, rest) = ap task w in
      keep-Fair targets statements concurrency s p i rest rest (running i rest) s.executed before
        refl (f.own p i rest before).3 (λ j e. refl) f
  Step-Fair (fail_step s p i rest w) f =
      end-Fair targets statements concurrency s p i rest (failure s.stopped) (ap task w)
        (failure-Error s.stopped rest) f
  Step-Fair (finish_step s p i w) f =
      end-Fair targets statements concurrency s p i [] success (ap task w) (λ n. refl) f
  Step-Fair (cancel_step s) f = cancel-Fair s f

  idle_worker : (p : ℕ) → task (if ltb p concurrency then ready else gone) ≡ none
  idle_worker p = elim (Bool-cases (ltb p concurrency)) [ inl e ↦ rw e refl | inr e ↦ rw e refl ]

  new_run-Fair : IsFair (new_run concurrency)
  unfolding new_run
  new_run-Fair = record {
    unique = λ p q i l m h k. absurd (ground (arith, idle_worker p, h));
    own = λ p i l h. absurd (ground (arith, idle_worker p, h));
    untouched = λ i h. (refl, refl);
    settled = λ i h t. absurd (omega arith);
    returned = λ p h g. absurd (ground (arith, h, g));
    outside = λ p h. ground (arith, h);
  }

  Reach-Fair : {s : MultiRun} → Reach targets statements concurrency s → IsFair s
  Reach-Fair here = new_run-Fair
  Reach-Fair (next r step) = Step-Fair step (Reach-Fair r)

  -- A run that has returned: its targets are settled.
  Reach-Settled :
      {s : MultiRun}
      → Reach targets statements concurrency s
      → 1 ≤ concurrency
      → ((p : ℕ) → p < concurrency → s.workers p ≡ gone)
      → (i : ℕ) → i < targets
      → Settled targets statements concurrency s i
  Reach-Settled {s = s} r some_worker returned i h =
      let f = Reach-Fair r in
      let taken = f.returned 0 some_worker (returned 0 some_worker) in
      elim (f.settled i (omega (arith, h, taken)) h) [
        | inl (p, l, busy) ↦ elim (Bool-cases (ltb p concurrency)) [
          | inl e ↦ absurd (no_task (s.workers p) i l (returned p (ground (arith, e))) busy)
          | inr e ↦ absurd (no_task (s.workers p) i l (f.outside p (ground (arith, e))) busy)
        ]
        | inr done ↦ done
      ]

workers_for-bounds :
    (requested : ℤ) (targets workers : ℕ)
    → 1 ≤ targets
    → workers_for requested targets ≡ some workers
    → 1 ≤ workers
unfolding workers_for
workers_for-bounds (pos n) targets workers h e = ground (arith, h, e)
workers_for-bounds (negsuc n) targets workers h e = ground (arith, h, e)

accept_run-accepted :
    (ids texts : List Bytes) (requested : ℤ) (statements : List Bytes) (workers : ℕ)
    → accept_run ids texts requested ≡ some (statements, workers)
    → 1 ≤ workers
unfolding accept_run
accept_run-accepted ids texts requested statements workers e =
    elim (Option-cases (workers_for requested (length ids))) [
      | inl x ↦ absurd (ground (arith, e, x))
      | inr (w, x) ↦
          let below : 1 ≤ length ids = ground (arith, e) in
          let bound = workers_for-bounds requested (length ids) w below x in
          ground (arith, e, x, bound)
    ]

-- A run on connections that is accepted settles each target by the time its workers have returned: the target
-- has exactly one last event; the statements it handed to the handler are the statements of the run in
-- their order up to some point, and all of them if the event is a success. This holds in whatever order
-- the workers take their targets and the statements return, and whenever the request is cancelled.
pub accept_run-Settled :
    (ids texts : List Bytes) (requested : ℤ) (statements : List Bytes) (workers : ℕ)
    → accept_run ids texts requested ≡ some (statements, workers)
    → {s : MultiRun} → Reach (length ids) statements workers s
    → ((p : ℕ) → p < workers → s.workers p ≡ gone)
    → (i : ℕ) → i < length ids
    → Settled (length ids) statements workers s i
accept_run-Settled ids texts requested statements workers e r returned i h =
    Reach-Settled (length ids) statements workers r
      (accept_run-accepted ids texts requested statements workers e) returned i h
