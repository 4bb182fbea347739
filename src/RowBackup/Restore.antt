-- ===== src/RowBackup/Restore.antt =====
-- `restoreLiteral`, `nameSet` and `restorePlan` of rowset-core/internal/api/rowbackup.go.
pub mod Plan
use rowset_studio.Common.{
  ℕ, zero, suc, ◌+◌, Bool, true, false, not, ◌&&◌, ◌||◌, Option, none, some, List, [], ◌∷◌, ◌++◌,
  map, Bytes, codes, is_word, any_word, bytes_eq, if◌then◌else◌, length, take, drop, get_elem?, any,
  join,
}
use rowset_studio.SqlGuard.Types.{Runtime, to_lower, to_upper, equal_fold}
use rowset_studio.Quoting.{quote_identifier, qualified_table, import_literal, hex_literal}

-- `backupValue`, by the kinds that `restoreLiteral` tells apart; `text` is every other kind.
pub data BackupValue : Type 0 where
  null : BackupValue
  bool num bytes text : Bytes → BackupValue

-- What a plan reads of `store.RowBackup`, and `rowBackupPayload` with the fields of a plan.
pub record RowBackup : Type 0 where
  pub kind : Bytes
  pub schema : Bytes
  pub table : Bytes

pub record RowBackupPayload : Type 0 where
  pub columns : List Bytes
  pub key : List Bytes
  pub rows : List (List BackupValue)
  pub generated : List Bytes
  pub identity : List Bytes
  pub identity_always : Bool
  pub types : List Bytes

-- The statements, the probes, and `identityInsert`.
pub record RestorePlan : Type 0 where
  pub statements : List Bytes
  pub probes : List Bytes
  pub identity_insert : Bool

abbrev is_null : Option BackupValue → Bool
is_null (some null) = true
is_null _ = false

abbrev is_type : Option Bytes → Bytes → Bool
unfolding bytes_eq
is_type none name = false
is_type (some t) name = bytes_eq t name

-- `for start := 0; start < len(rows); start += 100`: the slices of a hundred rows.
unfoldable pub batches {ℓ} : {A : Type ℓ} → ℕ → List A → List (List A)
batches zero rows = []
batches (suc fuel) [] = []
batches (suc fuel) (row ∷ rows) = take 100 (row ∷ rows) ∷ batches fuel (drop 100 (row ∷ rows))

-- The columns with their indices.
unfoldable pub indexed : ℕ → List Bytes → List (ℕ × Bytes)
indexed index [] = []
indexed index (column ∷ columns) = (index, column) ∷ indexed (suc index) columns

abbrev pub keep_if : Bool → Bytes → List Bytes → List Bytes
keep_if true x xs = x ∷ xs
keep_if false x xs = xs

-- The end of one turn of the loop over an UPDATE's rows, in front of the later ones.
unfoldable pub add_update : Bytes → List Bytes → List Bytes → RestorePlan → RestorePlan
unfolding join
add_update table [] conditions rest = rest
add_update table (a ∷ assignments) [] rest = rest
add_update table (a ∷ assignments) (c ∷ conditions) rest =
    let clause = codes " WHERE " ++ join (codes " AND ") (c ∷ conditions) in
    record {
      statements =
          (codes "UPDATE "
            ++ (table ++ (codes " SET " ++ (join (codes ", ") (a ∷ assignments) ++ clause))))
          ∷ rest.statements;
      probes = (codes "SELECT 1 FROM " ++ (table ++ clause)) ∷ rest.probes;
      identity_insert = false;
    }

module _ (rt : Runtime) where
  -- `nameSet` and the look-up in it.
  unfoldable pub in_name_set : List Bytes → Bytes → Bool
  unfolding to_lower bytes_eq
  in_name_set names name = any (λ n. bytes_eq (to_lower rt n) name) names

  -- `PostgresFamily` of rowset-core/internal/engine/capabilities.go.
  unfoldable pub postgres_family : Bytes → Bool
  unfolding to_lower any_word
  postgres_family engine =
      any_word (to_lower rt engine) ("postgres" ∷ "postgresql" ∷ "cockroachdb" ∷ [])

  -- `restoreLiteral`.
  unfoldable pub restore_literal : Bytes → BackupValue → Bytes
  unfolding to_lower to_upper any_word postgres_family bytes_eq hex_literal import_literal
  restore_literal engine null = codes "NULL"
  restore_literal engine (bool value) =
      let engine_name = to_lower rt engine in
      if postgres_family engine_name || is_word engine_name "duckdb"
      then to_upper rt value
      else if is_word value "true"
      then codes "1"
      else codes "0"
  restore_literal engine (num value) = value
  restore_literal engine (bytes value) =
      let engine_name = to_lower rt engine in
      let literal = hex_literal rt engine_name value in
      if any_word engine_name ("postgres" ∷ "cockroachdb" ∷ [])
      then literal ++ codes "::bytea"
      else literal
  restore_literal engine (text value) = import_literal rt (to_lower rt engine) value

  unfoldable pub sql_server : Bytes → Bool
  unfolding equal_fold
  sql_server engine =
      equal_fold rt engine (codes "mssql") || equal_fold rt engine (codes "sqlserver")

  -- The columns that are written back.
  unfoldable pub writable_columns : List Bytes → List (ℕ × Bytes) → List (ℕ × Bytes)
  unfolding in_name_set to_lower
  writable_columns generated [] = []
  writable_columns generated (column ∷ columns) =
      let rest = writable_columns generated columns in
      if in_name_set generated (to_lower rt column.1) then rest else column ∷ rest

  module _ (engine : Bytes) (payload : RowBackupPayload) where
    -- `writable`.
    unfoldable pub writable : List (ℕ × Bytes)
    unfolding writable_columns indexed
    writable = writable_columns payload.generated (indexed 0 payload.columns)

    -- `value`.
    unfoldable pub value_at : List BackupValue → ℕ → Bytes
    unfolding restore_literal sql_server is_type
    value_at row index = elim (get_elem? row index) [
      | none ↦ codes "NULL"
      | some value ↦
          let literal = restore_literal engine value in
          if sql_server engine
            && not (is_null (some value))
            && is_type (get_elem? payload.types index) (codes "SQL_VARIANT")
          then codes "CAST(" ++ (literal ++ codes " AS sql_variant)")
          else literal
    ]

    abbrev pub equals : List BackupValue → ℕ × Bytes → Bytes
    unfolding quote_identifier value_at
    equals row column =
        quote_identifier rt engine column.1 ++ (codes " = " ++ value_at row column.0)

    -- A row's assignments and conditions, by the columns of the loop over `writable`.
    unfoldable pub assignments_of : List BackupValue → List (ℕ × Bytes) → List Bytes
    unfolding in_name_set to_lower equals
    assignments_of row [] = []
    assignments_of row (column ∷ columns) =
        let name = to_lower rt column.1 in
        keep_if (not (in_name_set payload.key name) && not (in_name_set payload.identity name))
          (equals row column) (assignments_of row columns)

    abbrev pub condition : List BackupValue → ℕ × Bytes → Bytes
    unfolding quote_identifier equals
    condition row column =
        if is_null (get_elem? row column.0)
        then quote_identifier rt engine column.1 ++ codes " IS NULL"
        else equals row column

    unfoldable pub conditions_of : List BackupValue → List (ℕ × Bytes) → List Bytes
    unfolding in_name_set to_lower condition
    conditions_of row [] = []
    conditions_of row (column ∷ columns) =
        keep_if (in_name_set payload.key (to_lower rt column.1)) (condition row column)
          (conditions_of row columns)

    -- The loop over the rows of an UPDATE's backup.
    unfoldable pub update_rows : Bytes → List (List BackupValue) → RestorePlan
    unfolding assignments_of conditions_of writable add_update
    update_rows table [] = record { statements = []; probes = []; identity_insert = false }
    update_rows table (row ∷ rows) =
        add_update table (assignments_of row writable) (conditions_of row writable)
          (update_rows table rows)

    -- The loop over the slices of a DELETE's backup.
    unfoldable pub insert_row : List BackupValue → Bytes
    unfolding value_at writable join
    insert_row row =
        codes "  ("
        ++ (join (codes ", ") (map (λ column. value_at row column.0) writable) ++ codes ")")

    unfoldable pub insert_statement : Bytes → List (List BackupValue) → Bytes
    unfolding insert_row join
    insert_statement prefix rows =
        prefix ++ (codes " VALUES\n" ++ join (codes ",\n") (map insert_row rows))

    unfoldable pub uses_identity : Bool
    unfolding writable in_name_set to_lower
    uses_identity = any (λ column. in_name_set payload.identity (to_lower rt column.1)) writable

    unfoldable pub insert_prefix : Bytes → Bytes
    unfolding writable quote_identifier join uses_identity equal_fold
    insert_prefix table =
        let prefix =
          codes "INSERT INTO "
          ++ (table
              ++ (codes " ("
                  ++ (join (codes ", ")
                        (map (λ column. quote_identifier rt engine column.1) writable)
                      ++ codes ")"))) in
        if uses_identity && payload.identity_always && equal_fold rt engine (codes "postgres")
        then prefix ++ codes " OVERRIDING SYSTEM VALUE"
        else prefix

    -- `restorePlan`.
    unfoldable pub restore_plan : RowBackup → RestorePlan
    unfolding qualified_table bytes_eq insert_prefix insert_statement uses_identity sql_server
        batches update_rows
    restore_plan item =
        let table = qualified_table rt engine item.schema item.table in
        if is_word item.kind "delete"
        then record {
          statements =
              map (insert_statement (insert_prefix table))
                (batches (length payload.rows) payload.rows);
          probes = [];
          identity_insert = uses_identity && sql_server engine;
        }
        else update_rows table payload.rows
