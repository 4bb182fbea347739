-- ===== src/SqlGuard/Script.antt =====
-- `mergeScript`, `parseDialect` and `Parse` of rowset-core/sqlguard/parser.go: one statement, or a
-- script read as one.
pub mod Kinds
pub mod Unscoped
use rowset_studio.Common.{
  ℕ, ◌+◌, Bool, true, false, not, ◌&&◌, ◌||◌, Option, none, some, List, [], ◌∷◌, Bytes, bytes_eq,
  ltb, ◌==◌, if◌then◌else◌, ◌++◌, trim_space,
}
use rowset_studio.SqlGuard.Classify.{classify_statement, run_classify}
use rowset_studio.SqlGuard.Lexer.{lex_dialect}
use rowset_studio.SqlGuard.Split.{split_statements, run_split}
use rowset_studio.SqlGuard.Types.{
  Runtime, Dialect, Kind, select, insert, update, delete, ddl, session, other, unknown, kind_eq,
  TableRef, Token, Info, bare_info, contains_kind, lacks_where, Error, empty_sql, Result, ok, err,
}

-- The map `scriptRank`.
unfoldable pub script_rank : Kind → ℕ
script_rank session = 0
script_rank select = 1
script_rank insert = 2
script_rank update = 2
script_rank delete = 2
script_rank ddl = 3
script_rank other = 4
script_rank unknown = 5
script_rank _ = 0

-- One statement of the script; what cannot be read is unknown.
unfoldable pub script_part : Runtime → Dialect → Bytes → Info
script_part rt d statement =
    let (part, error) = classify_statement rt d statement in
    elim error [ none ↦ part | some e ↦ record part { kind = unknown; command = unknown } ]

abbrev is_empty : Bytes → Bool
is_empty [] = true
is_empty _ = false

unfoldable pub script_parts : Runtime → Dialect → List Bytes → List Info
script_parts rt d [] = []
script_parts rt d (s ∷ ss) =
    let rest = script_parts rt d ss in
    if is_empty (trim_space s) then rest else script_part rt d s ∷ rest

-- What the first loop does with a part.
unfoldable pub merge_part : Info → Info → Info
unfolding script_rank
merge_part merged part =
    let raised =
      if ltb (script_rank merged.kind) (script_rank part.kind)
      then record merged { kind = part.kind; command = part.kind }
      else merged in
    record raised {
      is_drop = merged.is_drop || part.is_drop;
      is_truncate = merged.is_truncate || part.is_truncate;
      touches_session = merged.touches_session || part.touches_session;
      controls_transaction = merged.controls_transaction || part.controls_transaction;
      switches_database = merged.switches_database || part.switches_database;
    }

unfoldable pub merge_parts : Info → List Info → Info
unfolding merge_part
merge_parts merged [] = merged
merge_parts merged (p ∷ ps) = merge_parts (merge_part merged p) ps

-- The loop over HasWhere: every part of the deciding kind has one, and there is such a part.
unfoldable pub deciding_where : Kind → Bool → ℕ → List Info → Bool
deciding_where kind has_where deciding [] = has_where && not (deciding == 0)
deciding_where kind has_where deciding (p ∷ ps) =
    deciding_where kind (if kind_eq p.kind kind && not p.has_where then false else has_where)
      (if kind_eq p.kind kind then deciding + 1 else deciding) ps

abbrev has_tables : List TableRef → Bool
has_tables [] = false
has_tables _ = true

-- The `switch` of the last loop but one: a kind that a WHERE can scope.
unfoldable pub scopable : Info → Bool
scopable part = elim part.kind [
  | update ↦ true
  | delete ↦ true
  | select ↦ has_tables part.tables
  | _ ↦ false
]

unfoldable pub add_unscoped : Info → Info → Info
add_unscoped merged part =
    if part.has_where || lacks_where merged part.kind
    then merged
    else if scopable part
    then record merged { unscoped = merged.unscoped ++ part.kind ∷ [] }
    else merged

unfoldable pub unscoped_loop : Info → List Info → Info
unscoped_loop merged [] = merged
unscoped_loop merged (p ∷ ps) = unscoped_loop (add_unscoped merged p) ps

-- `==` on references.
unfoldable pub table_eq : TableRef → TableRef → Bool
unfolding bytes_eq
table_eq a b = bytes_eq a.schema b.schema && bytes_eq a.name b.name && bytes_eq a.alias b.alias

unfoldable pub seen_table : TableRef → List TableRef → Bool
unfolding table_eq
seen_table t [] = false
seen_table t (u ∷ us) = table_eq u t || seen_table t us

-- The loops over the tables of the parts: `seen` holds those taken so far.
unfoldable pub new_tables : List TableRef → List TableRef → List TableRef
unfolding seen_table
new_tables seen [] = seen
new_tables seen (t ∷ ts) = new_tables (if seen_table t seen then seen else seen ++ t ∷ []) ts

unfoldable pub merge_tables : List TableRef → List Info → List TableRef
unfolding new_tables
merge_tables seen [] = seen
merge_tables seen (p ∷ ps) = merge_tables (new_tables seen p.tables) ps

abbrev pub script_start : Dialect → Bytes → Info
script_start d sql = record (bare_info d session sql) { command = session; is_script = true }

abbrev pub tokens_or_none : Result (List Token) → List Token
tokens_or_none (ok ts) = ts
tokens_or_none (err e) = []

-- The record of a script behind the loops over the kinds and the WHEREs.
unfoldable pub scoped_script : Dialect → Bytes → List Token → List Info → Info
scoped_script d sql tokens parts =
    let merged = merge_parts (script_start d sql) parts in
    record merged { tokens = tokens; has_where = deciding_where merged.kind true 0 parts }

-- `mergeScript` at the parts that its first loop has read.
unfoldable pub merge_infos : Dialect → Bytes → List Token → List Info → Info
merge_infos d sql tokens [] = record (script_start d sql) { kind = unknown; command = unknown }
merge_infos d sql tokens (p ∷ ps) =
    let parts = p ∷ ps in
    record (unscoped_loop (scoped_script d sql tokens parts) parts) {
      tables = merge_tables [] parts;
    }

-- `mergeScript`.
unfoldable pub merge_script : Runtime → Dialect → Bytes → List Bytes → Info
merge_script rt d sql statements =
    merge_infos d sql (tokens_or_none (lex_dialect rt d sql)) (script_parts rt d statements)

unfoldable pub parse_statements : Runtime → Dialect → Bytes → List Bytes → Info × Option Error
parse_statements rt d sql [] = (bare_info d unknown sql, some empty_sql)
parse_statements rt d sql (s ∷ []) = classify_statement rt d s
parse_statements rt d sql (s ∷ t ∷ ss) = (merge_script rt d sql (s ∷ t ∷ ss), none)

-- `parseDialect` at the statements that the text splits into.
unfoldable pub parse_split : Runtime → Dialect → Bytes → Result (List Bytes) → Info × Option Error
parse_split rt d sql (err e) = (bare_info d unknown sql, some e)
parse_split rt d sql (ok statements) = parse_statements rt d sql statements

-- `parseDialect`: the record, and the error if there is one.
unfoldable pub parse_text : Runtime → Dialect → Bytes → Info × Option Error
parse_text rt d sql = parse_split rt d sql (split_statements rt d sql)

-- The definitions of this module and those that it calls, to run them.
unfoldable pub run_parse : Runtime → Dialect → Bytes → Info × Option Error
unfolding parse_text parse_split run_split parse_statements merge_script script_part trim_space
    run_classify lex_dialect script_parts merge_infos scoped_script merge_parts deciding_where
    unscoped_loop add_unscoped lacks_where contains_kind scopable kind_eq merge_tables
run_parse = parse_text
