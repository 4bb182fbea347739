-- ===== src/RowBackup/Apply.antt =====
-- `applyRowBackup` of rowset-core/internal/api/rowbackup.go for SQL engines: the checks in their order,
-- the policies on each statement, and the transaction. What the store, the vault and the routing return
-- are arguments, `none` for an error; the database and its transactions are an interface.
pub mod Statements
pub mod Governed
use rowset_studio.Common.{
  ℕ, ◌==◌, ◌≡◌, Bool, true, false, not, ◌&&◌, Option, none, some, List, [], ◌∷◌, ◌++◌, Bytes, codes,
  bytes_eq, any_word, if◌then◌else◌,
}
use rowset_studio.SqlGuard.Types.{Info, Error, generic}
use rowset_studio.SqlGuard.Script.{parse_text}
use rowset_studio.Policy.{Effect, allow, deny, Decision}
use rowset_studio.Access.{Identity, Connection, AccessRole, is_admin, role_of, can_use_connection}
use rowset_studio.Governance.Overrides.{Resolved}
use rowset_studio.Governance.Verdict.{Workspace, resolved_for, decide}
use rowset_studio.Quoting.{qualified_table}
use rowset_studio.RowBackup.Restore.{RowBackup, RowBackupPayload, RestorePlan, restore_plan}

-- Transactions; `none` is an error. A statement returns the rows that it changed or read.
pub record RestoreDb : Type 1 where
  pub Db : Type 0
  pub Tx : Type 0
  pub begin : Db → Option Tx
  pub execute : Tx → Bytes → Option (Tx × ℕ)
  pub commit : Tx → Option Db

pub data RestoreEnd : Type 0 where
  restored nothing_to_restore : RestoreEnd
  not_found connection_gone no_role no_access other_engine unreadable rules_unavailable : RestoreEnd
  parse_error policy_denied not_routed not_begun statement_failed row_missing not_committed :
      RestoreEnd

-- What the checks of the statements yield.
pub data Approval : Type 0 where
  approved : Approval
  refused : RestoreEnd → Approval

-- Where a transaction stands: behind its statements, or to be rolled back.
pub data Turn (Tx : Type 0) : Type 0 where
  went : Tx → Turn Tx
  gave_up : RestoreEnd → Turn Tx

abbrev pub is_allow : Effect → Bool
is_allow allow = true
is_allow _ = false

-- The engines whose backups have decoders of their own.
unfoldable pub has_own_decoder : Bytes → Bool
unfolding any_word
has_own_decoder engine =
    any_word engine ("mongodb" ∷ "cassandra" ∷ "redis" ∷ "valkey" ∷ "elasticsearch" ∷ [])

abbrev pub later : List Bytes → List Bytes
later [] = []
later (probe ∷ rest) = rest

module _ (w : Workspace) (d : RestoreDb) where
  -- The loop over the statements in front of the transaction.
  unfoldable pub approve : Identity → AccessRole → Connection → Resolved → List Bytes → Approval
  approve identity role connection resolved [] = approved
  approve identity role connection resolved (s ∷ ss) = elim (parse_text w.runtime generic s).1 [
    | some error ↦ refused parse_error
    | none ↦
        elim (decide w false (w.shared && is_admin identity) identity role connection
          (parse_text w.runtime generic s).0 resolved) [
            | none ↦ refused rules_unavailable
            | some (decision, limit) ↦ elim (is_allow decision.effect) [
              | false ↦ refused policy_denied
              | true ↦ approve identity role connection resolved ss
            ]
          ]
  ]

  -- A statement that changed no row is looked up by its probe, where it has one.
  unfoldable pub run_statement : d.Tx → Bytes → List Bytes → Turn d.Tx
  run_statement tx s probes = elim (d.execute tx s) [
    | none ↦ gave_up statement_failed
    | some (after, affected) ↦ elim probes [
      | [] ↦ went after
      | probe ∷ rest ↦
          if affected == 0
          then elim (d.execute after probe) [
            | none ↦ gave_up statement_failed
            | some (probed, found) ↦ if found == 0 then gave_up row_missing else went probed
          ]
          else went after
    ]
  ]

  -- The loop of the transaction.
  unfoldable pub run_statements : d.Tx → List Bytes → List Bytes → Turn d.Tx
  unfolding run_statement
  run_statements tx [] probes = went tx
  run_statements tx (s ∷ ss) probes = elim (run_statement tx s probes) [
    | gave_up end ↦ gave_up end
    | went after ↦ run_statements after ss (later probes)
  ]

  -- The transaction; one that is not committed is rolled back.
  unfoldable pub run_restore : d.Db → List Bytes → List Bytes → d.Db × RestoreEnd
  unfolding run_statements
  run_restore db statements probes = elim (d.begin db) [
    | none ↦ (db, not_begun)
    | some tx ↦ elim (run_statements tx statements probes) [
      | gave_up end ↦ (db, end)
      | went last ↦ elim (d.commit last) [
        | none ↦ (db, not_committed)
        | some after ↦ (after, restored)
      ]
    ]
  ]

  -- SQL Server must allow explicit identity values while the statements run.
  unfoldable pub bracketed : Bytes → RowBackup → RestorePlan → List Bytes
  unfolding qualified_table
  bracketed engine item plan =
      let table = qualified_table w.runtime engine item.schema item.table in
      if plan.identity_insert
      then (codes "SET IDENTITY_INSERT " ++ (table ++ codes " ON"))
        ∷ (plan.statements ++ ((codes "SET IDENTITY_INSERT " ++ (table ++ codes " OFF")) ∷ []))
      else plan.statements

  -- The part of the handler behind the decoding of the backup.
  unfoldable pub restore_payload :
      Identity
      → AccessRole
      → Connection
      → Bytes
      → Bool
      → RowBackup
      → RowBackupPayload
      → d.Db
      → d.Db × RestoreEnd
  unfolding approve run_restore bracketed
  restore_payload identity role connection engine routed item payload db =
      let plan = restore_plan w.runtime engine payload item in
      elim plan.statements [
        | [] ↦ (db, nothing_to_restore)
        | s ∷ ss ↦ elim (resolved_for w identity connection) [
          | none ↦ (db, rules_unavailable)
          | some resolved ↦ elim (approve identity role connection resolved plan.statements) [
            | refused end ↦ (db, end)
            | approved ↦
                if routed
                then run_restore db (bracketed engine item plan) plan.probes
                else (db, not_routed)
          ]
        ]
      ]

  -- The handler. `found` is the backup that the caller may reach, `of_item` its connection with the name
  -- of the engine, `opened` its decrypted payload, `routed` whether the connection could be routed.
  unfoldable pub apply_row_backup :
      Identity
      → Option RowBackup
      → Option (Connection × Bytes)
      → Option RowBackupPayload
      → Bool
      → d.Db
      → d.Db × RestoreEnd
  unfolding bytes_eq has_own_decoder restore_payload
  apply_row_backup identity found of_item opened routed db = elim found [
    | none ↦ (db, not_found)
    | some item ↦ elim of_item [
      | none ↦ (db, connection_gone)
      | some (connection, engine) ↦
          if not (bytes_eq connection.org_id identity.org_id)
          then (db, connection_gone)
          else elim (role_of w.access identity.user_id) [
            | none ↦ (db, no_role)
            | some role ↦
                if not (can_use_connection w.access identity connection)
                then (db, no_access)
                else if has_own_decoder engine
                then (db, other_engine)
                else elim opened [
                  | none ↦ (db, unreadable)
                  | some payload ↦
                      restore_payload identity role connection engine routed item payload db
                ]
          ]
    ]
  ]
