-- ===== src/MultiRun/Targets.antt =====
-- What has become of each target when the workers have returned: rowset-core/internal/api/multirun.go.
use rowset_studio.Common.{
  ℕ, suc, ◌==◌, ◌≡◌, ◌≤◌, ◌<◌, refl, sym, subst, ap, ◌∙◌, false, Option, none, some, List, [], ◌∷◌,
  ◌++◌, Bytes, update, Bool-cases, inl, inr, ◌⊎◌, arith,
}
use rowset_studio.MultiRun.{Status, success, Worker, ready, gone, running, executing, MultiRun}

-- The target of a worker and the statements that are left of it.
abbrev pub task : Worker → Option (ℕ × List Bytes)
task ready = none
task gone = none
task (running i left) = some (i, left)
task (executing i left) = some (i, left)

-- A worker with a task, after one of them is set: it is the one that was set, or another as before.
pub task-update :
    (workers : ℕ → Worker) (p : ℕ) (w : Worker) (q i : ℕ) (l : List Bytes)
    → task (update workers p w q) ≡ some (i, l)
    → ((q ≡ p) × (task w ≡ some (i, l))) ⊎ (((q == p) ≡ false) × (task (workers q) ≡ some (i, l)))
task-update workers p w q i l h = elim (Bool-cases (q == p)) [
  | inl e ↦ inl (ground (arith, e), rw e at h)
  | inr e ↦ inr (e, rw e at h)
]

update_other :
    {A : Type 0} (f : ℕ → A) (p : ℕ) (a : A) (q : ℕ) → (q == p) ≡ false → update f p a q ≡ f q
update_other f p a q e = rw e refl

pub pair-eq :
    (i j : ℕ) (l m : List Bytes)
    → ◌≡◌ {A = Option (ℕ × List Bytes)} (some (i, l)) (some (j, m))
    → (i ≡ j) × (l ≡ m)
pair-eq i j l m e = (cc, cc)

pub task-idle :
    (workers : ℕ → Worker) (p : ℕ) (w : Worker) (q i : ℕ) (l : List Bytes)
    → task w ≡ none
    → task (update workers p w q) ≡ some (i, l)
    → ((q == p) ≡ false) × (task (workers q) ≡ some (i, l))
task-idle workers p w q i l idle h = elim (task-update workers p w q i l h) [
  | inl (x, y) ↦ absurd (ground (arith, idle, y))
  | inr other ↦ other
]

pub task-keeps :
    (workers : ℕ → Worker) (p : ℕ) (w : Worker) (q i : ℕ) (l : List Bytes)
    → task (workers p) ≡ none
    → task (workers q) ≡ some (i, l)
    → task (update workers p w q) ≡ some (i, l)
task-keeps workers p w q i l idle h = elim (Bool-cases (q == p)) [
  | inl same ↦
      let at : q ≡ p = ground (arith, same) in
      let y = subst (λ r. task (workers r) ≡ some (i, l)) at h in absurd (ground (arith, idle, y))
  | inr other ↦ rw other h
]

pub no_task : (w : Worker) (i : ℕ) (l : List Bytes) → w ≡ gone → task w ≡ some (i, l) → ⊥
no_task w i l e h = let x = subst (λ t. task t ≡ some (i, l)) e h in ground (arith, x)

pub apart : (i j n : ℕ) → i < n → n ≤ j → (j == i) ≡ false
apart i j n h k = ground (arith, h, k)

module _ (targets : ℕ) (statements : List Bytes) (concurrency : ℕ) where
  -- The target has one last event; its statements ran in their order up to some point, and all of them
  -- if it is a success.
  abbrev pub Settled : MultiRun → ℕ → Type 0
  Settled s i =
      (status : Status) × (rest : List Bytes) × (s.statuses i ≡ status ∷ [])
      × (s.executed i ++ rest ≡ statements)
      × (status ≡ success → rest ≡ [])

  -- A worker's target is its own, and has no last event yet.
  abbrev pub Own : MultiRun → ℕ → ℕ → List Bytes → Type 0
  Own s p i left =
      (i < s.next) × (i < targets) × (s.statuses i ≡ []) × (s.executed i ++ left ≡ statements)

  pub record Fair (s : MultiRun) : Type 0 where
    pub unique :
        (p q i : ℕ) (l m : List Bytes)
        → task (s.workers p) ≡ some (i, l)
        → task (s.workers q) ≡ some (i, m)
        → p ≡ q
    pub own : (p i : ℕ) (l : List Bytes) → task (s.workers p) ≡ some (i, l) → Own s p i l
    pub untouched : (i : ℕ) → s.next ≤ i → (s.statuses i ≡ []) × (s.executed i ≡ [])
    pub settled :
        (i : ℕ)
        → i < s.next
        → i < targets
        → ((p : ℕ) × (l : List Bytes) × (task (s.workers p) ≡ some (i, l))) ⊎ Settled s i
    pub returned : (p : ℕ) → p < concurrency → s.workers p ≡ gone → targets ≤ s.next
    pub outside : (p : ℕ) → concurrency ≤ p → s.workers p ≡ gone

  -- Another worker has another target.
  pub others_task :
      (s : MultiRun)
      → Fair s
      → (p i : ℕ) (l : List Bytes) → task (s.workers p) ≡ some (i, l)
      → (a j : ℕ) (m : List Bytes) → (a == p) ≡ false
      → task (s.workers a) ≡ some (j, m)
      → (j == i) ≡ false
  others_task s f p i l before a j m n h = elim (Bool-cases (j == i)) [
    | inl e ↦
        let at : j ≡ i = ground (arith, e) in
        let same = f.unique a p i m l (subst (λ t. task (s.workers a) ≡ some (t, m)) at h) before in
        absurd (ground (arith, n, same))
    | inr e ↦ e
  ]

  -- A worker without a task takes the next target.
  pub take-Fair :
      (s : MultiRun) (p : ℕ)
      → s.workers p ≡ ready
      → s.next < targets
      → Fair s
      → Fair
          (record s { next = suc s.next; workers = update s.workers p (running s.next statements) })
  take-Fair s p w below f =
      let later = λ (q : ℕ) (l : List Bytes) (t : task (s.workers q) ≡ some (s.next, l)).
        (f.own q s.next l t).0 in
      record {
        unique = λ a b i l m h k.
            elim (task-update s.workers p (running s.next statements) a i l h) [
              | inl (x, y) ↦ elim (task-update s.workers p (running s.next statements) b i m k) [
                | inl (x', y') ↦ x ∙ sym x'
                | inr (x', y') ↦
                    let o = (f.own b i m y').0 in
                    absurd (omega (arith, (pair-eq s.next i statements l y).0, o))
              ]
              | inr (x, y) ↦ elim (task-update s.workers p (running s.next statements) b i m k) [
                | inl (x', y') ↦
                    let o = (f.own a i l y).0 in
                    absurd (omega (arith, (pair-eq s.next i statements m y').0, o))
                | inr (x', y') ↦ f.unique a b i l m y y'
              ]
            ];
        own = λ a i l h. elim (task-update s.workers p (running s.next statements) a i l h) [
          | inl (x, y) ↦
              let (at, left) = pair-eq s.next i statements l y in
              let (none_yet, nothing) = f.untouched s.next (omega arith) in
              (
                omega (arith, at),
                omega (arith, at),
                subst (λ j. s.statuses j ≡ []) at none_yet,
                ap (λ j. s.executed j ++ l) (sym at) ∙ (ap (λ e. e ++ l) nothing ∙ sym left),
              )
          | inr (x, y) ↦ let o = f.own a i l y in (omega (arith, o.0), o.1, o.2, o.3)
        ];
        untouched = λ i h. f.untouched i (omega arith);
        settled = λ i h t. elim (Bool-cases (i == s.next)) [
          | inl e ↦ inl (p, statements, ground (arith, e))
          | inr e ↦ elim (f.settled i (ground (arith, e, h)) t) [
            | inl (q, l, h') ↦ inl (
              q,
              l,
              elim (Bool-cases (q == p)) [
                | inl same ↦ absurd (ground (arith, same, h', w))
                | inr other ↦ rw other h'
              ],
            )
            | inr done ↦ inr done
          ]
        ];
        returned = λ q h g. elim (Bool-cases (q == p)) [
          | inl same ↦ absurd (ground (arith, same, g))
          | inr other ↦ absurd (omega (arith, f.returned q h (rw other at g)))
        ];
        outside = λ q h. elim (Bool-cases (q == p)) [
          | inl same ↦ absurd (ground (arith, same, w, f.outside q h))
          | inr other ↦ rw other (f.outside q h)
        ];
      }

  -- A worker returns when there is no target left.
  pub leave-Fair :
      (s : MultiRun) (p : ℕ)
      → s.workers p ≡ ready
      → targets ≤ s.next
      → Fair s
      → Fair (record s { next = suc s.next; workers = update s.workers p gone })
  leave-Fair s p w above f =
      let old = λ (a i : ℕ) (l : List Bytes) (h : task (update s.workers p gone a) ≡ some (i, l)).
        task-idle s.workers p gone a i l refl h in
      record {
        unique = λ a b i l m h k. f.unique a b i l m (old a i l h).1 (old b i m k).1;
        own = λ a i l h. let o = f.own a i l (old a i l h).1 in (omega (arith, o.0), o.1, o.2, o.3);
        untouched = λ i h. f.untouched i (omega arith);
        settled = λ i h t. elim (f.settled i (omega arith) t) [
          | inl (q, l, h') ↦ inl (q, l, task-keeps s.workers p gone q i l (rw w refl) h')
          | inr done ↦ inr done
        ];
        returned = λ q h g. omega arith;
        outside = λ q h. elim (Bool-cases (q == p)) [
          | inl same ↦ rw same refl
          | inr other ↦ rw other (f.outside q h)
        ];
      }
