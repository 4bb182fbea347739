-- ===== src/MultiRun/Going.antt =====
-- The invariant of a run while a target goes on and when it ends: rowset-core/internal/api/multirun.go.
use rowset_studio.Common.{
  ℕ, ◌==◌, ◌≡◌, ◌<◌, refl, sym, subst, ap, ◌∙◌, false, some, List, [], ◌∷◌, ◌++◌, Bytes, update,
  update_self, Bool-cases, inl, inr, arith,
}
use rowset_studio.MultiRun.{Status, success, Worker, ready, gone, MultiRun, end_target}
use rowset_studio.MultiRun.Targets.{
  task, task-update, task-idle, no_task, apart, pair-eq, Fair, others_task,
}

module _ (targets : ℕ) (statements : List Bytes) (concurrency : ℕ) where
  -- A worker goes on with its target.
  pub keep-Fair :
      (s : MultiRun) (p i : ℕ) (l l' : List Bytes) (w : Worker) (executed : ℕ → List Bytes)
      → task (s.workers p) ≡ some (i, l)
      → task w ≡ some (i, l')
      → executed i ++ l' ≡ statements
      → ((j : ℕ) → (j == i) ≡ false → executed j ≡ s.executed j)
      → Fair targets statements concurrency s
      → Fair targets statements concurrency
          (record s { workers = update s.workers p w; executed = executed })
  keep-Fair s p i l l' w executed before after split others f =
      let mine = f.own p i l before in
      record {
        unique = λ a b j m n h k. elim (task-update s.workers p w a j m h) [
          | inl (x, y) ↦ elim (task-update s.workers p w b j n k) [
            | inl (x', y') ↦ x ∙ sym x'
            | inr (x', y') ↦
                let at = (pair-eq i j l' m (sym after ∙ y)).0 in
                x ∙ f.unique p b j l n (subst (λ t. task (s.workers p) ≡ some (t, l)) at before) y'
          ]
          | inr (x, y) ↦ elim (task-update s.workers p w b j n k) [
            | inl (x', y') ↦
                let at = (pair-eq i j l' n (sym after ∙ y')).0 in
                f.unique a p j m l y (subst (λ t. task (s.workers p) ≡ some (t, l)) at before)
                ∙ sym x'
            | inr (x', y') ↦ f.unique a b j m n y y'
          ]
        ];
        own = λ a j m h. elim (task-update s.workers p w a j m h) [
          | inl (x, y) ↦
              let (at, left) = pair-eq i j l' m (sym after ∙ y) in
              subst
                (λ t.
                  (t < s.next)
                  × (t < targets)
                  × (s.statuses t ≡ [])
                  × (executed t ++ m ≡ statements))
                at (mine.0, mine.1, mine.2, ap (λ t. executed i ++ t) (sym left) ∙ split)
          | inr (x, y) ↦
              let o = f.own a j m y in
              elim (Bool-cases (j == i)) [
                | inl e ↦
                    let at : j ≡ i = ground (arith, e) in
                    let same =
                      f.unique a p i m l (subst (λ t. task (s.workers a) ≡ some (t, m)) at y)
                        before in
                    absurd (ground (arith, x, same))
                | inr e ↦ (o.0, o.1, o.2, ap (λ t. t ++ m) (others j e) ∙ o.3)
              ]
        ];
        untouched =
            λ j h. let u = f.untouched j h in (u.0, others j (apart i j s.next mine.0 h) ∙ u.1);
        settled = λ j h t. elim (Bool-cases (j == i)) [
          | inl e ↦
              let at : i ≡ j = ground (arith, e) in
              inl (p, l', rw (update_self s.workers p w) (after ∙ ap (λ t. some (t, l')) at))
          | inr e ↦ elim (f.settled j h t) [
            | inl (q, m, h') ↦ elim (Bool-cases (q == p)) [
              | inl same ↦
                  let at : q ≡ p = ground (arith, same) in
                  let y = subst (λ r. task (s.workers r) ≡ some (j, m)) at h' in
                  let ij = (pair-eq i j l m (sym before ∙ y)).0 in absurd (ground (arith, e, ij))
              | inr other ↦ inl (q, m, rw other h')
            ]
            | inr (status, rest, x, y, z) ↦
                inr (status, rest, x, ap (λ t. t ++ rest) (others j e) ∙ y, z)
          ]
        ];
        returned = λ q h g. elim (Bool-cases (q == p)) [
          | inl same ↦
              absurd (no_task w i l' (let x : w ≡ gone = ground (arith, same, g) in x) after)
          | inr other ↦ f.returned q h (rw other at g)
        ];
        outside = λ q h. elim (Bool-cases (q == p)) [
          | inl same ↦
              let at : q ≡ p = ground (arith, same) in
              absurd (
                no_task (s.workers p) i l (subst (λ r. s.workers r ≡ gone) at (f.outside q h))
                  before)
          | inr other ↦ rw other (f.outside q h)
        ];
      }

  -- A target ends, and its worker goes back to the counter.
  pub end-Fair :
      (s : MultiRun) (p i : ℕ) (l : List Bytes) (status : Status)
      → task (s.workers p) ≡ some (i, l)
      → (status ≡ success → l ≡ [])
      → Fair targets statements concurrency s
      → Fair targets statements concurrency (end_target p i status s)
  unfolding end_target
  end-Fair s p i l status before whole f =
      let mine = f.own p i l before in
      let old = λ (a j : ℕ) (m : List Bytes) (h : task (update s.workers p ready a) ≡ some (j, m)).
        task-idle s.workers p ready a j m refl h in
      let else_ =
        λ (a j : ℕ) (m : List Bytes) (h : task (update s.workers p ready a) ≡ some (j, m)).
          others_task targets statements concurrency s f p i l before a j m (old a j m h).0
            (old a j m h).1 in
      record {
        unique = λ a b j m n h k. f.unique a b j m n (old a j m h).1 (old b j n k).1;
        own = λ a j m h.
            let o = f.own a j m (old a j m h).1 in (o.0, o.1, rw (else_ a j m h) o.2, o.3);
        untouched = λ j h. let u = f.untouched j h in (rw (apart i j s.next mine.0 h) u.0, u.1);
        settled = λ j h t. elim (Bool-cases (j == i)) [
          | inl e ↦
              let at : j ≡ i = ground (arith, e) in
              inr (
                status,
                l,
                rw e (ap (λ t. status ∷ t) mine.2),
                ap (λ t. s.executed t ++ l) at ∙ mine.3,
                whole,
              )
          | inr e ↦ elim (f.settled j h t) [
            | inl (q, m, h') ↦ elim (Bool-cases (q == p)) [
              | inl same ↦
                  let at : q ≡ p = ground (arith, same) in
                  let y = subst (λ r. task (s.workers r) ≡ some (j, m)) at h' in
                  let ij = (pair-eq i j l m (sym before ∙ y)).0 in absurd (ground (arith, e, ij))
              | inr other ↦ inl (q, m, rw other h')
            ]
            | inr (end, rest, x, y, z) ↦ inr (end, rest, rw e x, y, z)
          ]
        ];
        returned = λ q h g. elim (Bool-cases (q == p)) [
          | inl same ↦ absurd (ground (arith, same, g))
          | inr other ↦ f.returned q h (rw other at g)
        ];
        outside = λ q h. elim (Bool-cases (q == p)) [
          | inl same ↦
              let at : q ≡ p = ground (arith, same) in
              absurd (
                no_task (s.workers p) i l (subst (λ r. s.workers r ≡ gone) at (f.outside q h))
                  before)
          | inr other ↦ rw other (f.outside q h)
        ];
      }
