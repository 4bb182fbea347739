-- ===== src/Tests/ImportWitnesses.antt =====
-- The theorems on CSV imports and on restores, applied to a database that is the list of its statements.
use rowset_studio.Common.{pos, true, false, none, some, Option, List, [], ◌∷◌, ◌++◌, Bytes, codes}
use rowset_studio.CsvImport.{ImportInput, Transactions, run_import}
use rowset_studio.CsvImport.Rows.{AllOrNothing, run_import-AllOrNothing}
use rowset_studio.Access.{Connection}
use rowset_studio.Governance.Verdict.{Workspace}
use rowset_studio.RowBackup.Restore.{RowBackup, RowBackupPayload, num, null}
use rowset_studio.RowBackup.Apply.{RestoreDb, apply_row_backup}
use rowset_studio.RowBackup.Apply.Statements.{RestoredOnly}
use rowset_studio.RowBackup.Apply.Governed.{Restored, apply_row_backup-RestoredOnly}
use rowset_studio.Tests.Fixtures.{ascii_runtime, analyst, warehouse}

abbrev statements_run : Transactions
statements_run = record {
  Db = List Bytes;
  Tx = List Bytes;
  begin = λ db. some db;
  execute = λ tx statement. some (tx ++ (statement ∷ []));
  commit = λ tx. some tx;
}

abbrev two_columns : ImportInput
two_columns = record {
  engine = codes "postgres";
  header = true;
  null_empty = true;
  columns =
      record { source = pos 0; target = codes "id" }
      ∷ record { source = pos 1; target = codes "name" }
      ∷ [];
  hex_columns = false ∷ false ∷ [];
}

-- A header, two rows and an empty line.
abbrev file : List (Option (List Bytes))
file =
    some (codes "id" ∷ codes "name" ∷ [])
    ∷ some (codes "1" ∷ codes "it's" ∷ [])
    ∷ some ([] ∷ [])
    ∷ some (codes "2" ∷ [])
    ∷ []

run_import-AllOrNothing_example :
    AllOrNothing ascii_runtime statements_run two_columns
      (codes "INSERT INTO t VALUES ")
      []
      file
      (run_import ascii_runtime statements_run two_columns (codes "INSERT INTO t VALUES ") [] file)
run_import-AllOrNothing_example =
    run_import-AllOrNothing ascii_runtime statements_run two_columns (codes "INSERT INTO t VALUES ")
      [] file

abbrev rows_changed : RestoreDb
rows_changed = record {
  Db = List Bytes;
  Tx = List Bytes;
  begin = λ db. some db;
  execute = λ tx statement. some (tx ++ (statement ∷ []), 1);
  commit = λ tx. some tx;
}

abbrev home : Workspace
home = record {
  runtime = ascii_runtime;
  rules = [];
  custom_rules = λ kind. none;
  access = none;
  shared = false;
  overrides = some [];
  custom_policies = some [];
  minute = 600;
}

abbrev deleted : RowBackupPayload
deleted = record {
  columns = codes "id" ∷ codes "Name" ∷ [];
  key = codes "ID" ∷ [];
  rows = (num (codes "2") ∷ null ∷ []) ∷ [];
  generated = [];
  identity = [];
  identity_always = false;
  types = [];
}

abbrev backup : RowBackup
backup = record { kind = codes "delete"; schema = []; table = codes "t" }

abbrev development : Connection
development = record warehouse { read_only = false }

apply_row_backup-RestoredOnly_example :
    RestoredOnly home rows_changed []
      (Restored home rows_changed analyst
        (some backup)
        (some (development, codes "postgres"))
        (some deleted)
        [])
      (apply_row_backup home rows_changed analyst
        (some backup)
        (some (development, codes "postgres"))
        (some deleted)
        true
        [])
apply_row_backup-RestoredOnly_example =
    apply_row_backup-RestoredOnly home rows_changed analyst (some backup)
      (some (development, codes "postgres")) (some deleted) true []
