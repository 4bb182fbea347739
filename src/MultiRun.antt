-- ===== src/MultiRun.antt =====
-- A run on several connections: `runOnConnections` and `runTarget` of
-- rowset-core/internal/api/multirun.go. The workers share one counter; what a statement returns, and when
-- the request is cancelled, is any choice.
pub mod Targets
pub mod Going
pub mod Ended
use rowset_studio.Common.{
  ℕ, suc, ◌≡◌, ◌≤◌, ◌<◌, Bool, true, false, not, ◌||◌, Option, none, some, List, [], ◌∷◌, ◌++◌,
  Bytes, any, length, trim_space, leb, ltb, ◌==◌, update, if◌then◌else◌, ℤ, pos, negsuc,
}

-- `defaultMultiRunConcurrency` and `maxMultiRunConcurrency`.
abbrev pub default_multi_run_concurrency : ℕ
default_multi_run_concurrency = 4

abbrev pub max_multi_run_concurrency : ℕ
max_multi_run_concurrency = 10

abbrev pub is_blank : Bytes → Bool
is_blank [] = true
is_blank (c ∷ cs) = false

-- The statements that are not blank, trimmed.
unfoldable pub statements_of : List Bytes → List Bytes
unfolding trim_space
statements_of [] = []
statements_of (s ∷ ss) =
    let rest = statements_of ss in
    let statement = trim_space s in if is_blank statement then rest else statement ∷ rest

abbrev pub smaller : ℕ → ℕ → ℕ
smaller a b = if leb a b then a else b

-- The number of workers, `none` for a number that is refused.
unfoldable pub workers_for : ℤ → ℕ → Option ℕ
workers_for (negsuc n) targets = some (smaller default_multi_run_concurrency targets)
workers_for (pos n) targets =
    if n == 0
    then some (smaller default_multi_run_concurrency targets)
    else if ltb max_multi_run_concurrency n
    then none
    else some (smaller n targets)

abbrev pub unnamed : Bytes → Bool
unfolding trim_space
unnamed id = is_blank (trim_space id)

abbrev pub with_workers : List Bytes → Option ℕ → Option (List Bytes × ℕ)
with_workers statements none = none
with_workers statements (some workers) = some (statements, workers)

-- The statements and the number of workers of a run on connections with these ids, `none` for an input that
-- is refused.
unfoldable pub accept_run : List Bytes → List Bytes → ℤ → Option (List Bytes × ℕ)
accept_run ids texts requested =
    let statements = statements_of texts in
    if length ids == 0 || length statements == 0
    then none
    else if any unnamed ids
    then none
    else with_workers statements (workers_for requested (length ids))

-- What a target's last event says.
pub data Status : Type 0 where
  success error cancelled : Status

-- A worker at the counter; in `runTarget` for a target in front of the statements that are left; in the
-- handler of a statement, in front of those behind it; and one that has returned.
pub data Worker : Type 0 where
  ready gone : Worker
  running executing : ℕ → List Bytes → Worker

-- `next`, the workers, whether the request is cancelled, and of each target the statements that were
-- handed to the handler and the statuses of its last events.
pub record MultiRun : Type 0 where
  pub next : ℕ
  pub workers : ℕ → Worker
  pub stopped : Bool
  pub executed : ℕ → List Bytes
  pub statuses : ℕ → List Status

unfoldable pub new_run : ℕ → MultiRun
new_run concurrency = record {
  next = 0;
  workers = λ p. if ltb p concurrency then ready else gone;
  stopped = false;
  executed = λ i. [];
  statuses = λ i. [];
}

-- A worker takes the next target, or returns.
unfoldable pub take_target : ℕ → List Bytes → ℕ → MultiRun → MultiRun
take_target targets statements p s =
    if ltb s.next targets
    then record s { next = suc s.next; workers = update s.workers p (running s.next statements) }
    else record s { next = suc s.next; workers = update s.workers p gone }

-- A target ends with an event, and its worker goes back to the counter.
unfoldable pub end_target : ℕ → ℕ → Status → MultiRun → MultiRun
end_target p i status s = record s {
  workers = update s.workers p ready;
  statuses = update s.statuses i (status ∷ s.statuses i);
}

-- A statement is handed to the handler.
unfoldable pub begin_statement : ℕ → ℕ → Bytes → List Bytes → MultiRun → MultiRun
begin_statement p i sql rest s = record s {
  workers = update s.workers p (executing i rest);
  executed = update s.executed i (s.executed i ++ (sql ∷ []));
}

-- What a statement that failed makes of its target.
abbrev pub failure : Bool → Status
failure stopped = if stopped then cancelled else error

module _ (targets : ℕ) (statements : List Bytes) where
  pub data Step : MultiRun → MultiRun → Type 0 where
    take_step :
        (s : MultiRun) (p : ℕ) → s.workers p ≡ ready → Step s (take_target targets statements p s)
    -- The context is looked at in front of each statement.
    stop_step :
        (s : MultiRun) (p i : ℕ) (sql : Bytes) (rest : List Bytes)
        → s.workers p ≡ running i (sql ∷ rest)
        → s.stopped ≡ true
        → Step s (end_target p i cancelled s)
    statement_step :
        (s : MultiRun) (p i : ℕ) (sql : Bytes) (rest : List Bytes)
        → s.workers p ≡ running i (sql ∷ rest)
        → s.stopped ≡ false
        → Step s (begin_statement p i sql rest s)
    succeed_step :
        (s : MultiRun) (p i : ℕ) (rest : List Bytes)
        → s.workers p ≡ executing i rest
        → Step s (record s { workers = update s.workers p (running i rest) })
    fail_step :
        (s : MultiRun) (p i : ℕ) (rest : List Bytes)
        → s.workers p ≡ executing i rest
        → Step s (end_target p i (failure s.stopped) s)
    finish_step :
        (s : MultiRun) (p i : ℕ) → s.workers p ≡ running i [] → Step s (end_target p i success s)
    cancel_step : (s : MultiRun) → Step s (record s { stopped = true })

  pub data Reach (concurrency : ℕ) : MultiRun → Type 0 where
    here : Reach concurrency (new_run concurrency)
    next : {s t : MultiRun} → Reach concurrency s → Step s t → Reach concurrency t
