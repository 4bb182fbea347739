-- ===== src/Tests/StatementWitnesses.antt =====
-- The theorems on quoted texts and on row backups, applied to short texts.
use rowset_studio.Common.{
  ◌+◌, bytes_eq, ◌≡◌, refl, true, false, some, [], ◌∷◌, ◌++◌, length, Bytes, codes, ◌||◌,
  if◌then◌else◌,
}
use rowset_studio.SqlGuard.Types.{mysql, to_lower, Info}
use rowset_studio.SqlGuard.Lexer.{lex_loop, make_token, prepend, quoted_name}
use rowset_studio.SqlGuard.Lexer.Scan.{backslash_escapes}
use rowset_studio.SqlGuard.Script.{run_parse}
use rowset_studio.Quoting.{
  quote_identifier, qualified_table, import_literal, is_mysql, is_sql_server,
}
use rowset_studio.Quoting.Tokens.{
  closing, turns, with_literal, lex_loop-import_literal, lex_loop-quote_identifier,
}
use rowset_studio.Quoting.Roundtrip.{read_literal, read_literal-import_literal}
use rowset_studio.RowBackup.Restore.{
  null, num, text, RowBackup, RowBackupPayload, writable, restore_plan,
}
use rowset_studio.RowBackup.Restore.Plan.{
  keep, none_of, is_key, is_written, UpdatePlan, restore_plan-update_rows,
}
use rowset_studio.RowBackup.Target.{BackupTarget, run_target}
use rowset_studio.Tests.Fixtures.{ascii_runtime}

-- A value with a quote and a backslash, and text behind it.
abbrev hostile : Bytes
hostile = codes "a\\'; drop table t --"

abbrev mysql_name : Bytes
mysql_name = codes "MySQL"

lex_loop-import_literal_example :
    lex_loop ascii_runtime mysql
      (turns (is_sql_server (to_lower ascii_runtime mysql_name)) 1)
      (import_literal ascii_runtime mysql_name hostile ++ codes ")")
      0
      1
      0
    ≡ with_literal ascii_runtime mysql
        (is_sql_server (to_lower ascii_runtime mysql_name))
        (import_literal ascii_runtime mysql_name hostile)
        0
        1
        (λ j. lex_loop ascii_runtime mysql 1 (codes ")") j 1 0)
unfolding backslash_escapes is_mysql to_lower
lex_loop-import_literal_example =
    lex_loop-import_literal ascii_runtime mysql mysql_name hostile (codes ")") 1 0 1 0 refl refl

lex_loop-quote_identifier_example :
    (let q = quote_identifier ascii_runtime mysql_name (codes "a`b") in
      lex_loop ascii_runtime mysql 2 (q ++ codes ".c") 0 0 0
      ≡ prepend true
          (make_token ascii_runtime quoted_name q 0 (length q) 0)
          (lex_loop ascii_runtime mysql 1 (codes ".c") (0 + length q) 0 0))
unfolding closing
lex_loop-quote_identifier_example =
    lex_loop-quote_identifier ascii_runtime mysql mysql_name (codes "a`b") (codes ".c") 1 0 0 0 refl

read_literal-import_literal_example :
    read_literal
      (λ c. c)
      (is_mysql (to_lower ascii_runtime mysql_name))
      (is_sql_server (to_lower ascii_runtime mysql_name))
      (import_literal ascii_runtime mysql_name hostile)
    ≡ some hostile
read_literal-import_literal_example =
    read_literal-import_literal ascii_runtime (λ c. c) mysql_name hostile refl

abbrev payload : RowBackupPayload
payload = record {
  columns = codes "id" ∷ codes "Name" ∷ [];
  key = codes "ID" ∷ [];
  rows = (num (codes "1") ∷ text (codes "it's") ∷ []) ∷ (num (codes "2") ∷ null ∷ []) ∷ [];
  generated = [];
  identity = [];
  identity_always = false;
  types = [];
}

abbrev backup : Bytes → RowBackup
backup kind = record { kind = kind; schema = []; table = codes "t" }

restore_plan-update_rows_example :
    restore_plan ascii_runtime mysql_name payload (backup (codes "update")) ≡ (
      if none_of (
          keep
            (is_key ascii_runtime mysql_name payload)
            (writable ascii_runtime mysql_name payload))
        || none_of (
            keep
              (is_written ascii_runtime mysql_name payload)
              (writable ascii_runtime mysql_name payload))
      then record { statements = []; probes = []; identity_insert = false }
      else UpdatePlan ascii_runtime mysql_name payload
          (qualified_table ascii_runtime mysql_name [] (codes "t"))
          payload.rows)
unfolding bytes_eq
restore_plan-update_rows_example =
    restore_plan-update_rows ascii_runtime mysql_name payload (backup (codes "update")) refl

abbrev changed : Info
unfolding run_parse
changed = (run_parse ascii_runtime mysql (codes "update s.t set a = 1 where b = 2 limit 5")).0

abbrev target : BackupTarget
target = record {
  kind = codes "update";
  schema = codes "s";
  table = codes "t";
  clause = codes "b = 2";
}

changed-target : run_target changed ≡ some target
unfolding run_parse run_target
changed-target = refl

-- MySQL's UPDATE of two tables has a target, the one that Info.Tables holds.
two_tables-target :
    run_target (run_parse ascii_runtime mysql (codes "UPDATE a, b SET b.x = 1 WHERE a.id = 3")).0
    ≡ some (record {
      kind = codes "update";
      schema = [];
      table = codes "a";
      clause = codes "a.id = 3";
    })
unfolding run_parse run_target
two_tables-target = refl
