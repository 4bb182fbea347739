-- ===== src/RowBackup/Apply/Statements.antt =====
-- What the statements of a restore have done: rowset-core/internal/api/rowbackup.go.
use rowset_studio.Common.{
  ℕ, ◌==◌, ◌≡◌, ◌≢◌, refl, ap, ◌∙◌, subst, true, false, ◌&&◌, none, some, List, [], ◌∷◌, Bytes, All,
  Bool-cases, Option-cases, ◌⊎◌, inl, inr, arith,
}
use rowset_studio.SqlGuard.Types.{generic}
use rowset_studio.SqlGuard.Script.{parse_text}
use rowset_studio.Policy.{Effect, allow, deny, Decision}
use rowset_studio.Access.{Identity, Connection, AccessRole, is_admin}
use rowset_studio.Governance.Overrides.{Resolved}
use rowset_studio.Governance.Verdict.{Workspace, decide}
use rowset_studio.RowBackup.Apply.{
  RestoreDb, RestoreEnd, restored, not_begun, not_committed, Approval, approved, refused, Turn,
  went, gave_up, is_allow, approve, run_statement, later, run_statements, run_restore,
}

is_allow-allow : (e : Effect) → is_allow e ≡ true → e ≡ allow
is_allow-allow allow h = refl
is_allow-allow deny h = absurd (ground (arith, h))

pub List-cases :
    {A : Type 0} (xs : List A) → (xs ≡ []) ⊎ ((x : A) × (rest : List A) × (xs ≡ x ∷ rest))
List-cases [] = inl refl
List-cases (x ∷ xs) = inr (x, xs, refl)

pub Approval-cases : (a : Approval) → ((end : RestoreEnd) × (a ≡ refused end)) ⊎ (a ≡ approved)
Approval-cases approved = inr refl
Approval-cases (refused end) = inl (end, refl)

Turn-cases :
    {Tx : Type 0} (t : Turn Tx)
    → ((end : RestoreEnd) × (t ≡ gave_up end)) ⊎ ((tx : Tx) × (t ≡ went tx))
Turn-cases (gave_up end) = inl (end, refl)
Turn-cases (went tx) = inr (tx, refl)

module _ (w : Workspace) (d : RestoreDb) where
  -- The statement is parsed, and the policies in force allow it.
  abbrev pub Allowed : Identity → AccessRole → Connection → Resolved → Bytes → Type 0
  Allowed identity role connection resolved s =
      (decision : Decision) × (limit : ℕ) × ((parse_text w.runtime generic s).1 ≡ none)
      × (decide w false (w.shared && is_admin identity) identity role connection
            (parse_text w.runtime generic s).0 resolved
          ≡ some (decision, limit))
      × (decision.effect ≡ allow)

  -- A statement has run: it changed a row, or its probe found one, or it has no probe.
  abbrev pub Ran : d.Tx → Bytes → List Bytes → d.Tx → Type 0
  Ran tx s [] after = (affected : ℕ) × (d.execute tx s ≡ some (after, affected))
  Ran tx s (probe ∷ probes) after =
      ((affected : ℕ) × (d.execute tx s ≡ some (after, affected)) × (affected ≢ 0))
      ⊎ ((mid : d.Tx) × (found : ℕ) × (d.execute tx s ≡ some (mid, 0))
          × (d.execute mid probe ≡ some (after, found))
          × (found ≢ 0))

  abbrev pub AllRan : d.Tx → List Bytes → List Bytes → d.Tx → Type 0
  AllRan tx [] probes last = tx ≡ last
  AllRan tx (s ∷ ss) probes last =
      (after : d.Tx) × Ran tx s probes after × AllRan after ss (later probes) last

  pub approve-Allowed :
      (identity : Identity) (role : AccessRole) (connection : Connection) (resolved : Resolved)
      (ss : List Bytes)
      → approve w d identity role connection resolved ss ≡ approved
      → All (Allowed identity role connection resolved) ss
  unfolding approve
  approve-Allowed identity role connection resolved [] h = tt
  approve-Allowed identity role connection resolved (s ∷ ss) h =
      let info = (parse_text w.runtime generic s).0 in
      elim (Option-cases (parse_text w.runtime generic s).1) [
        | inr (error, e) ↦ absurd (ground (arith, e, h))
        | inl e ↦
            elim (Option-cases (
              decide w false (w.shared && is_admin identity) identity role connection info
                resolved)) [
                  | inl n ↦ absurd (ground (arith, e, n, h))
                  | inr ((decision, limit), f) ↦ elim (Bool-cases (is_allow decision.effect)) [
                    | inr n ↦ absurd (ground (arith, e, f, n, h))
                    | inl a ↦ (
                      (decision, limit, e, f, is_allow-allow decision.effect a),
                      approve-Allowed identity role connection resolved ss
                          (ground (arith, e, f, a, h)),
                    )
                  ]
                ]
      ]

  run_statement-Ran :
      (tx after : d.Tx) (s : Bytes) (probes : List Bytes)
      → run_statement w d tx s probes ≡ went after
      → Ran tx s probes after
  unfolding run_statement
  run_statement-Ran tx after s [] h = elim (Option-cases (d.execute tx s)) [
    | inl n ↦ absurd (ground (arith, n, h))
    | inr ((mid, affected), e) ↦ (
      affected,
      e ∙ ap (λ t. some (t, affected)) (let same : mid ≡ after = ground (arith, e, h) in same),
    )
  ]
  run_statement-Ran tx after s (probe ∷ probes) h = elim (Option-cases (d.execute tx s)) [
    | inl n ↦ absurd (ground (arith, n, h))
    | inr ((mid, affected), e) ↦ elim (Bool-cases (affected == 0)) [
      | inr some_row ↦ inl (
        affected,
        e
            ∙ ap (λ t. some (t, affected))
                (let same : mid ≡ after = ground (arith, e, some_row, h) in same),
        λ z. ground (arith, some_row, z),
      )
      | inl no_row ↦ elim (Option-cases (d.execute mid probe)) [
        | inl n ↦ absurd (ground (arith, e, no_row, n, h))
        | inr ((probed, found), f) ↦ elim (Bool-cases (found == 0)) [
          | inl z ↦ absurd (ground (arith, e, no_row, f, z, h))
          | inr z ↦ inr (
            mid,
            found,
            e
                ∙ ap (λ n. some (mid, n))
                    (let none_ : affected ≡ 0 = ground (arith, no_row) in none_),
            f
                ∙ ap (λ t. some (t, found))
                    (let same : probed ≡ after = ground (arith, e, no_row, f, z, h) in same),
            λ y. ground (arith, z, y),
          )
        ]
      ]
    ]
  ]

  run_statements-AllRan :
      (tx last : d.Tx) (ss probes : List Bytes)
      → run_statements w d tx ss probes ≡ went last
      → AllRan tx ss probes last
  unfolding run_statements
  run_statements-AllRan tx last [] probes h = ground (arith, h)
  run_statements-AllRan tx last (s ∷ ss) probes h =
      elim (Turn-cases (run_statement w d tx s probes)) [
        | inl (end, e) ↦ absurd (ground (arith, e, h))
        | inr (after, e) ↦ (
          after,
          run_statement-Ran tx after s probes e,
          run_statements-AllRan after last ss (later probes) (ground (arith, e, h)),
        )
      ]

  -- The database behind a restore that has ended so: it is committed, or as it was.
  abbrev pub Committed : d.Db → List Bytes → List Bytes → d.Db → Type 0
  Committed db statements probes after =
      (first : d.Tx) × (last : d.Tx) × (d.begin db ≡ some first)
      × AllRan first statements probes last
      × (d.commit last ≡ some after)

  -- What holds if the rows are restored; the database is as it was if not.
  abbrev pub RestoredOnly : d.Db → (d.Db → Type 0) → d.Db × RestoreEnd → Type 0
  RestoredOnly db P result =
      (result.1 ≡ restored → P result.0) × (result.1 ≢ restored → result.0 ≡ db)

  pub kept :
      (db : d.Db) (P : d.Db → Type 0) (end : RestoreEnd) (result : d.Db × RestoreEnd)
      → (db, end) ≡ result
      → end ≢ restored
      → RestoredOnly db P result
  kept db P end result e n = subst (RestoredOnly db P) e ((λ r. absurd (n r)), (λ _. refl))

  gave_up-ne-restored :
      (tx : d.Tx) (s : Bytes) (probes : List Bytes) (end : RestoreEnd)
      → run_statement w d tx s probes ≡ gave_up end
      → end ≢ restored
  unfolding run_statement
  gave_up-ne-restored tx s [] end h r = ground (arith, h, r)
  gave_up-ne-restored tx s (probe ∷ probes) end h r = ground (arith, h, r)

  statements-ne-restored :
      (tx : d.Tx) (ss probes : List Bytes) (end : RestoreEnd)
      → run_statements w d tx ss probes ≡ gave_up end
      → end ≢ restored
  unfolding run_statements
  statements-ne-restored tx [] probes end h r = ground (arith, h)
  statements-ne-restored tx (s ∷ ss) probes end h r =
      elim (Turn-cases (run_statement w d tx s probes)) [
        | inl (last, e) ↦
            gave_up-ne-restored tx s probes end
              (let x : run_statement w d tx s probes ≡ gave_up end = ground (arith, e, h) in x) r
        | inr (after, e) ↦
            statements-ne-restored after ss (later probes) end (ground (arith, e, h)) r
      ]

  pub approve-ne-restored :
      (identity : Identity) (role : AccessRole) (connection : Connection) (resolved : Resolved)
      (ss : List Bytes) (end : RestoreEnd)
      → approve w d identity role connection resolved ss ≡ refused end
      → end ≢ restored
  unfolding approve
  approve-ne-restored identity role connection resolved [] end h r = ground (arith, h)
  approve-ne-restored identity role connection resolved (s ∷ ss) end h r =
      ground (arith, h, r, approve-ne-restored identity role connection resolved ss end)

  pub run_restore-RestoredOnly :
      (db : d.Db) (ss probes : List Bytes)
      → RestoredOnly db (Committed db ss probes) (run_restore w d db ss probes)
  unfolding run_restore
  run_restore-RestoredOnly db ss probes =
      let result = run_restore w d db ss probes in
      let P = Committed db ss probes in
      elim (Option-cases (d.begin db)) [
        | inl n ↦ kept db P not_begun result (ground (arith, n)) (λ e. cc)
        | inr (tx, b) ↦ elim (Turn-cases (run_statements w d tx ss probes)) [
          | inl (end, g) ↦
              kept db P end result (ground (arith, b, g))
                (statements-ne-restored tx ss probes end g)
          | inr (last, g) ↦ elim (Option-cases (d.commit last)) [
            | inl n ↦ kept db P not_committed result (ground (arith, b, g, n)) (λ e. cc)
            | inr (after, c) ↦
                subst (RestoredOnly db P)
                  (let x : (after, restored) ≡ result = ground (arith, b, g, c) in x)
                  (
                    (λ _. (tx, last, b, run_statements-AllRan tx last ss probes g, c)),
                    (λ n. absurd (n refl)),
                  )
          ]
        ]
      ]
