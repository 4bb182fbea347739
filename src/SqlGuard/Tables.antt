-- ===== src/SqlGuard/Tables.antt =====
-- `extractTables` of rowset-core/sqlguard/parser.go.
pub mod Keys
use rowset_studio.Common.{
  Bool, true, false, not, ◌&&◌, ◌||◌, Option, none, some, List, [], ◌∷◌, ◌++◌, Bytes, codes,
  bytes_eq, is_word, any_word, if◌then◌else◌,
}
use rowset_studio.SqlGuard.Types.{Token, TableRef, keyword, reserved}
use rowset_studio.SqlGuard.Split.{next_lower}

-- The loop over the parts of a dotted name: its last two parts, and the tokens behind it.
unfoldable pub dotted : Bytes → Bytes → List Token → Bytes × Bytes × List Token
unfolding bytes_eq
dotted schema name (dot ∷ part ∷ ts) = elim (is_word dot.text "." && part.identifier) [
  | true ↦ dotted name part.lower ts
  | false ↦ (schema, name, dot ∷ part ∷ ts)
]
dotted schema name ts = (schema, name, ts)

abbrev skip_word : Bool → List Token → List Token
skip_word true (t ∷ ts) = ts
skip_word _ ts = ts

-- The alias behind a name, empty if there is none.
alias_of : List Token → Bytes
unfolding reserved
alias_of [] = []
alias_of (t ∷ ts) = if t.identifier && not (reserved t.lower) then t.lower else []

-- The reference behind the word `word`, given the tokens that follow that word.
unfoldable pub table_at : Bytes → List Token → Option TableRef
unfolding bytes_eq dotted alias_of next_lower
table_at word following =
    let skips = is_word (next_lower following) "table" && not (is_word word "table") in
    elim (skip_word skips following) [
      | [] ↦ none
      | t ∷ ts ↦
          let (schema, name, rest) = dotted [] t.lower ts in
          let behind = skip_word (is_word (next_lower rest) "as") rest in
          if is_word t.text "(" || not t.identifier
          then none
          else some (record { schema = schema; name = name; alias = alias_of behind })
    ]

abbrev follows : (Token → Bool) → List Token → Bool
follows test [] = false
follows test (t ∷ ts) = test t

-- The word at a token names a table: `first` is `i == 0`, `after_key` that the token before is KEY.
unfoldable pub names_table : Bool → Bool → Token → List Token → Bool
unfolding any_word bytes_eq keyword next_lower
names_table first after_key t ts =
    if is_word t.lower "delete" && is_word (next_lower ts) "from"
    then false
    else if is_word t.lower "update" && after_key
    then false
    else if is_word t.lower "into" && follows (λ u. keyword u "outfile" || keyword u "dumpfile") ts
    then false
    else any_word t.lower ("from" ∷ "join" ∷ "update" ∷ "into" ∷ "truncate" ∷ [])
      || (first && is_word t.lower "table")

-- The key under which a reference counts as seen.
unfoldable pub table_key : TableRef → Bytes
table_key ref = ref.schema ++ (codes "." ++ (ref.name ++ (codes "." ++ ref.alias)))

unfoldable pub seen_key : Bytes → List Bytes → Bool
unfolding bytes_eq
seen_key key [] = false
seen_key key (k ∷ ks) = bytes_eq k key || seen_key key ks

-- The loop, with the keys that it has seen.
unfoldable pub tables_loop : List Bytes → Bool → Bool → List Token → List TableRef
tables_loop seen first after_key [] = []
tables_loop seen first after_key (t ∷ ts) =
    let next = keyword t "key" in
    elim (names_table first after_key t ts) [
      | false ↦ tables_loop seen false next ts
      | true ↦ elim (table_at t.lower ts) [
        | none ↦ tables_loop seen false next ts
        | some ref ↦ elim (seen_key (table_key ref) seen) [
          | true ↦ tables_loop seen false next ts
          | false ↦ ref ∷ tables_loop (table_key ref ∷ seen) false next ts
        ]
      ]
    ]

-- `extractTables`.
unfoldable pub extract_tables : List Token → List TableRef
extract_tables = tables_loop [] true false

-- The definitions of this module and those that it calls, to run them.
unfoldable pub run_tables : List Token → List TableRef
unfolding extract_tables tables_loop names_table table_at table_key seen_key keyword
run_tables = extract_tables
