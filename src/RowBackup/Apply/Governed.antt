-- ===== src/RowBackup/Apply/Governed.antt =====
-- What a restore has done: rowset-core/internal/api/rowbackup.go.
use rowset_studio.Common.{
  ◌≡◌, refl, subst, Bool, true, Option, none, some, Bytes, bytes_eq, bytes_eq_iff, All, Bool-cases,
  Option-cases, inl, inr, arith,
}
use rowset_studio.Access.{Identity, Connection, AccessRole, role_of, can_use_connection}
use rowset_studio.Governance.Overrides.{Resolved}
use rowset_studio.Governance.Verdict.{Workspace, resolved_for}
use rowset_studio.RowBackup.Restore.{RowBackup, RowBackupPayload, restore_plan}
use rowset_studio.RowBackup.Apply.{
  RestoreDb, nothing_to_restore, connection_gone, no_role, no_access, other_engine, unreadable,
  rules_unavailable, not_routed, has_own_decoder, approve, run_restore, bracketed, restore_payload,
  apply_row_backup,
}
use rowset_studio.RowBackup.Apply.Statements.{
  Allowed, Committed, RestoredOnly, kept, approve-Allowed, approve-ne-restored,
  run_restore-RestoredOnly, List-cases, Approval-cases,
}

module _ (w : Workspace) (d : RestoreDb) where
  -- What a restore of a payload has passed, and done.
  abbrev pub Governed :
      Identity
      → AccessRole
      → Connection
      → Bytes
      → RowBackup
      → RowBackupPayload
      → d.Db
      → d.Db
      → Type 0
  Governed identity role connection engine item payload db after =
      let plan = restore_plan w.runtime engine payload item in
      (resolved : Resolved) × (resolved_for w identity connection ≡ some resolved)
      × All (Allowed w d identity role connection resolved) plan.statements
      × Committed w d db (bracketed w d engine item plan) plan.probes after

  restore_payload-RestoredOnly :
      (identity : Identity) (role : AccessRole) (connection : Connection) (engine : Bytes)
      (routed : Bool) (item : RowBackup) (payload : RowBackupPayload) (db : d.Db)
      → RestoredOnly w d db
          (Governed identity role connection engine item payload db)
          (restore_payload w d identity role connection engine routed item payload db)
  unfolding restore_payload
  restore_payload-RestoredOnly identity role connection engine routed item payload db =
      let plan = restore_plan w.runtime engine payload item in
      let result = restore_payload w d identity role connection engine routed item payload db in
      let P = Governed identity role connection engine item payload db in
      elim (List-cases plan.statements) [
        | inl e ↦ kept w d db P nothing_to_restore result (ground (arith, e)) (λ x. cc)
        | inr (s, ss, e) ↦ elim (Option-cases (resolved_for w identity connection)) [
          | inl n ↦ kept w d db P rules_unavailable result (ground (arith, e, n)) (λ x. cc)
          | inr (resolved, r) ↦
              elim (Approval-cases
                (approve w d identity role connection resolved plan.statements)) [
                  | inl (end, a) ↦ kept w d db P end result (ground (arith, e, r, a)) (
                      approve-ne-restored w d identity role connection resolved plan.statements end
                        a)
                  | inr a ↦ elim (Bool-cases routed) [
                    | inr n ↦ kept w d db P not_routed result (ground (arith, e, r, a, n)) (λ x. cc)
                    | inl y ↦
                        let ran = run_restore w d db (bracketed w d engine item plan) plan.probes in
                        let done =
                          run_restore-RestoredOnly w d db (bracketed w d engine item plan)
                            plan.probes in
                        subst (RestoredOnly w d db P)
                          (let x : ran ≡ result = ground (arith, e, r, a, y) in x)
                          (
                            (λ q. (
                              resolved,
                              r,
                              approve-Allowed w d identity role connection resolved plan.statements
                                  a,
                              done.0 q,
                            )),
                            done.1,
                          )
                  ]
                ]
        ]
      ]

  abbrev pub Restored :
      Identity
      → Option RowBackup
      → Option (Connection × Bytes)
      → Option RowBackupPayload
      → d.Db
      → d.Db
      → Type 0
  Restored identity found of_item opened db after =
      (item : RowBackup) × (connection : Connection) × (engine : Bytes)
      × (payload : RowBackupPayload) × (role : AccessRole) × (found ≡ some item)
      × (of_item ≡ some (connection, engine))
      × (opened ≡ some payload)
      × (connection.org_id ≡ identity.org_id)
      × (role_of w.access identity.user_id ≡ some role)
      × (can_use_connection w.access identity connection ≡ true)
      × Governed identity role connection engine item payload db after

  -- The rows of a backup are restored only to a caller of the organization of its connection who may
  -- use that connection, after every statement of the plan was parsed and allowed by the policies in
  -- force, and then by a committed transaction in which these statements ran in their order, each of
  -- those with a probe changing a row or finding by its probe the row it restores, and each of the
  -- others without an error, whatever number of rows it changed; in every other case the database is
  -- as it was, for transactions that change it at their commit only.
  pub apply_row_backup-RestoredOnly :
      (identity : Identity) (found : Option RowBackup) (of_item : Option (Connection × Bytes))
      (opened : Option RowBackupPayload) (routed : Bool) (db : d.Db)
      → RestoredOnly w d db
          (Restored identity found of_item opened db)
          (apply_row_backup w d identity found of_item opened routed db)
  unfolding apply_row_backup
  apply_row_backup-RestoredOnly identity none of_item opened routed db = ((λ e. cc), (λ _. refl))
  apply_row_backup-RestoredOnly identity (some item) none opened routed db =
      ((λ e. cc), (λ _. refl))
  apply_row_backup-RestoredOnly identity (some item) (some (connection, engine)) opened routed db =
      let found : Option RowBackup = some item in
      let of_item : Option (Connection × Bytes) = some (connection, engine) in
      let result = apply_row_backup w d identity found of_item opened routed db in
      let P = Restored identity found of_item opened db in
      elim (Bool-cases (bytes_eq connection.org_id identity.org_id)) [
        | inr n ↦ kept w d db P connection_gone result (ground (arith, n)) (λ x. cc)
        | inl org ↦ elim (Option-cases (role_of w.access identity.user_id)) [
          | inl n ↦ kept w d db P no_role result (ground (arith, org, n)) (λ x. cc)
          | inr (role, r) ↦ elim (Bool-cases (can_use_connection w.access identity connection)) [
            | inr n ↦ kept w d db P no_access result (ground (arith, org, r, n)) (λ x. cc)
            | inl use_ ↦ elim (Bool-cases (has_own_decoder engine)) [
              | inl own ↦
                  kept w d db P other_engine result (ground (arith, org, r, use_, own)) (λ x. cc)
              | inr sql ↦ elim (Option-cases opened) [
                | inl n ↦
                    kept w d db P unreadable result (ground (arith, org, r, use_, sql, n)) (λ x. cc)
                | inr (payload, o) ↦
                    let ran =
                      restore_payload w d identity role connection engine routed item payload db in
                    let done =
                      restore_payload-RestoredOnly identity role connection engine routed item
                        payload db in
                    subst (RestoredOnly w d db P)
                      (let x : ran ≡ result = ground (arith, org, r, use_, sql, o) in x)
                      (
                        (λ q. (
                          item,
                          connection,
                          engine,
                          payload,
                          role,
                          refl,
                          refl,
                          o,
                          (bytes_eq_iff connection.org_id identity.org_id).0 org,
                          r,
                          use_,
                          done.0 q,
                        )),
                        done.1,
                      )
              ]
            ]
          ]
        ]
      ]
