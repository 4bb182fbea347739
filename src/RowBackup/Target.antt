-- ===== src/RowBackup/Target.antt =====
-- `backupTargetOf`, `assignedColumns` and `backupSelectList` of
-- rowset-core/internal/api/rowbackup.go: which rows and columns of a statement's table are backed up.
pub mod Columns
use rowset_studio.Common.{
  ℕ, ◌+◌, ◌-◌, ◌==◌, Bool, true, false, not, ◌&&◌, ◌||◌, Option, none, some, List, [], ◌∷◌, ◌++◌,
  map, Bytes, codes, is_word, any_word, bytes_eq, if◌then◌else◌, length, slice, any, ltb, leb, join,
  trim_space, trim_right,
}
use rowset_studio.SqlGuard.Types.{
  Runtime, to_lower, Kind, update, delete, kind_eq, Token, TableRef, Info,
}
use rowset_studio.Quoting.{quote_identifier}

pub record BackupTarget : Type 0 where
  pub kind : Bytes
  pub schema : Bytes
  pub table : Bytes
  pub clause : Bytes

-- The tokens outside all parentheses.
unfoldable pub top_tokens : List Token → List Token
top_tokens [] = []
top_tokens (t ∷ ts) = let rest = top_tokens ts in if t.depth == 0 then t ∷ rest else rest

-- What the loop over them finds: the first WHERE with the tokens behind it, and the number of FROMs.
pub record Clauses : Type 0 where
  pub where_token : Option (Token × List Token)
  pub froms : ℕ

abbrev first_where : Option (Token × List Token) → Token → List Token → Option (Token × List Token)
first_where none t ts = some (t, ts)
first_where (some w) t ts = some w

-- `none` is the return at a JOIN or USING.
unfoldable pub scan_clauses : List Token → Clauses → Option Clauses
unfolding any_word bytes_eq
scan_clauses [] found = some found
scan_clauses (t ∷ ts) found = elim (any_word t.lower ("join" ∷ "using" ∷ [])) [
  | true ↦ none
  | false ↦ scan_clauses ts (
      if is_word t.lower "from"
      then record found { froms = found.froms + 1 }
      else if is_word t.lower "where"
      then record found { where_token = first_where found.where_token t ts }
      else found)
]

abbrev ends_clause : Token → Bool
unfolding any_word
ends_clause t = any_word t.lower ("order" ∷ "limit" ∷ "returning" ∷ "option" ∷ [])

-- Where the clause ends.
unfoldable pub clause_end : ℕ → List Token → ℕ
unfolding any_word ends_clause
clause_end end [] = end
clause_end end (t ∷ ts) = let rest = clause_end end ts in if ends_clause t then t.start else rest

unfoldable pub bars_whole_table : List Token → Bool
unfolding any_word
bars_whole_table =
    any
      (λ t. any_word t.lower ("order" ∷ "limit" ∷ "returning" ∷ "option" ∷ "using" ∷ "where" ∷ []))

abbrev is_none : {A : Type 0} → Option A → Bool
is_none none = true
is_none (some _) = false

-- The test behind the loop, for the token behind the first one.
unfoldable pub refuses : Info → Bool → Token → Clauses → Bool
unfolding bytes_eq kind_eq
refuses info whole_table second found =
    (is_none found.where_token && not whole_table)
    || (kind_eq info.command update && ltb 0 found.froms)
    || (kind_eq info.command delete
        && (not (found.froms == 1) || not (is_word second.lower "from")))

-- A DELETE without WHERE, by the tokens behind its first two.
unfoldable pub whole_target : TableRef → List Token → Option BackupTarget
unfolding bars_whole_table
whole_target table behind =
    if bars_whole_table behind
    then none
    else some (record {
      kind = codes "delete";
      schema = table.schema;
      table = table.name;
      clause = codes "1=1";
    })

abbrev pub target_of_clause : Bool → TableRef → Bytes → Option BackupTarget
target_of_clause is_delete table [] = none
target_of_clause is_delete table (c ∷ clause) = some (record {
  kind = if is_delete then codes "delete" else codes "update";
  schema = table.schema;
  table = table.name;
  clause = c ∷ clause;
})

unfoldable pub clause_target : Info → TableRef → Option (Token × List Token) → Option BackupTarget
unfolding kind_eq clause_end trim_space trim_right
clause_target info table none = none
clause_target info table (some (w, ts)) = target_of_clause (kind_eq info.command delete) table (
    trim_right (trim_space (slice info.raw w.end (clause_end (length info.raw) ts)))
      (codes "; \t\r\n"))

-- The rest of `backupTargetOf` behind the loop.
unfoldable pub target_from :
    Info → Bool → TableRef → Token → List Token → Clauses → Option BackupTarget
unfolding refuses whole_target clause_target
target_from info whole_table table second behind found =
    if refuses info whole_table second found
    then none
    else if whole_table
    then whole_target table behind
    else clause_target info table found.where_token

-- The test on the whole statement.
unfoldable pub has_no_target : Info → Bool
unfolding kind_eq
has_no_target info =
    (not (kind_eq info.command update) && not (kind_eq info.command delete))
    || not (info.has_where || (kind_eq info.command delete && not info.has_where))

unfoldable pub found_target :
    Info → TableRef → Token → List Token → Option Clauses → Option BackupTarget
unfolding target_from kind_eq
found_target info table second behind none = none
found_target info table second behind (some found) =
    target_from info (kind_eq info.command delete && not info.has_where) table second behind found

-- Its tests on the tables and on the tokens outside parentheses.
unfoldable pub table_target : Info → List TableRef → List Token → Option BackupTarget
unfolding bytes_eq scan_clauses found_target
table_target info (table ∷ []) (first ∷ second ∷ behind) =
    if is_word first.lower "with"
    then none
    else found_target info table second behind
        (scan_clauses (first ∷ second ∷ behind) (record { where_token = none; froms = 0 }))
table_target info _ _ = none

-- `backupTargetOf`.
unfoldable pub backup_target_of : Info → Option BackupTarget
unfolding has_no_target top_tokens table_target
backup_target_of info =
    if info.is_script
    then none
    else if has_no_target info
    then none
    else table_target info info.tables (top_tokens info.tokens)

-- `backup_target_of` with the definitions that it calls, to run it.
unfoldable pub run_target : Info → Option BackupTarget
unfolding backup_target_of has_no_target top_tokens table_target found_target target_from refuses
    whole_target clause_target clause_end bars_whole_table scan_clauses trim_space trim_right
    any_word bytes_eq kind_eq
run_target = backup_target_of

-- `numberToken`.
unfoldable pub number_token : Token → Bool
number_token t = not t.quoted && elim t.text [ [] ↦ false | c ∷ cs ↦ leb b'0' c && leb c b'9' ]

unfoldable pub is_column : Token → Bool
unfolding number_token
is_column t = t.identifier && not (number_token t)

-- The SET list: the tokens behind SET up to WHERE.
unfoldable pub until_where : List Token → List Token
unfolding bytes_eq
until_where [] = []
until_where (t ∷ ts) =
    let rest = until_where ts in if not t.quoted && is_word t.lower "where" then [] else t ∷ rest

unfoldable pub set_list : List Token → List Token
unfolding until_where bytes_eq
set_list [] = []
set_list (t ∷ ts) =
    let rest = set_list ts in if not t.quoted && is_word t.lower "set" then until_where ts else rest

-- A column once, with its text as it is first written.
unfoldable pub add_column : Token → List (Bytes × Bytes) → List (Bytes × Bytes)
unfolding bytes_eq
add_column t columns =
    if any (λ c. bytes_eq c.0 t.lower) columns then columns else columns ++ ((t.lower, t.text) ∷ [])

-- Where the loop over the SET list stands: in front of a column's name, behind a name, or in a value.
pub data Place : Type 0 where
  at_column in_value : Place
  behind_name : Token → Place

unfoldable pub assigned_loop :
    Place → List Token → List (Bytes × Bytes) → Option (List (Bytes × Bytes))
unfolding is_column bytes_eq add_column
assigned_loop at_column [] columns = some columns
assigned_loop at_column (t ∷ ts) columns = elim (is_column t) [
  | true ↦ assigned_loop (behind_name t) ts columns
  | false ↦ none
]
assigned_loop in_value [] columns = some columns
assigned_loop in_value (t ∷ ts) columns = elim (is_word t.text ",") [
  | true ↦ assigned_loop at_column ts columns
  | false ↦ assigned_loop in_value ts columns
]
assigned_loop (behind_name name) [] columns = none
assigned_loop (behind_name name) (t ∷ []) columns =
    if is_word t.text "=" then some (add_column name columns) else none
assigned_loop (behind_name name) (t ∷ u ∷ ts) columns = elim (is_word t.text "." && is_column u) [
  | true ↦ assigned_loop (behind_name u) ts columns
  | false ↦ elim (is_word t.text "=") [
    | true ↦ assigned_loop in_value (u ∷ ts) (add_column name columns)
    | false ↦ none
  ]
]

unfoldable pub unless_empty : Option (List (Bytes × Bytes)) → Option (List (Bytes × Bytes))
unless_empty (some (c ∷ columns)) = some (c ∷ columns)
unless_empty _ = none

unfoldable pub assigned_in : List Token → Option (List (Bytes × Bytes))
unfolding assigned_loop unless_empty
assigned_in [] = none
assigned_in (t ∷ ts) = unless_empty (assigned_loop at_column (t ∷ ts) [])

-- `assignedColumns`: the names with the texts, `none` for its `false`.
unfoldable pub assigned_columns : Info → Option (List (Bytes × Bytes))
unfolding top_tokens set_list assigned_in
assigned_columns info = assigned_in (set_list (top_tokens info.tokens))

module _ (rt : Runtime) where
  unfoldable pub holds_name : List Bytes → Bytes → Bool
  unfolding to_lower bytes_eq
  holds_name names name = any (λ n. bytes_eq (to_lower rt n) name) names

  -- The columns that the engine rewrites on its own and that are not read anyway.
  unfoldable pub refreshed_columns : Bytes → List Bytes → List Bytes → List Bytes
  unfolding holds_name to_lower quote_identifier
  refreshed_columns engine taken [] = []
  refreshed_columns engine taken (name ∷ names) =
      let rest = refreshed_columns engine taken names in
      if holds_name taken (to_lower rt name) then rest else quote_identifier rt engine name ∷ rest

  unfoldable pub writes_key : List Bytes → List (Bytes × Bytes) → Bool
  unfolding holds_name
  writes_key key columns = any (λ c. holds_name key c.0) columns

  -- `backupSelectList`.
  unfoldable pub backup_select_list : Bytes → BackupTarget → Info → List Bytes → List Bytes → Bytes
  unfolding bytes_eq assigned_columns writes_key refreshed_columns quote_identifier join
  backup_select_list engine plan info key refreshed =
      if not (is_word plan.kind "update") then codes "*" else elim (assigned_columns info) [
        | none ↦ codes "*"
        | some columns ↦
            if writes_key key columns
            then codes "*"
            else join (codes ", ") (
                map (quote_identifier rt engine) key
                ++ (map (λ c. c.1) columns
                    ++ refreshed_columns engine (key ++ map (λ c. c.0) columns) refreshed))
      ]
