-- ===== src/SqlGuard/Split.antt =====
-- `splitStatements` of rowset-core/sqlguard/parser.go: a text is cut at the semicolons of its top
-- level, but for those in the body of a routine.
pub mod Semicolons
use rowset_studio.Common.{
  ℕ, ◌+◌, ◌-◌, Bool, true, false, not, ◌&&◌, ◌||◌, List, [], ◌∷◌, String, Bytes, codes, bytes_eq,
  is_word, any_word, ltb, ◌==◌, if◌then◌else◌, length, take, drop, slice, trim_space,
}
use rowset_studio.SqlGuard.Types.{Runtime, Dialect, Token, Result, ok, ◌>>=◌}
use rowset_studio.SqlGuard.Lexer.{lex_dialect}

-- `nextLower` at the tokens behind the index.
unfoldable pub next_lower : List Token → Bytes
next_lower [] = []
next_lower (t ∷ ts) = t.lower

abbrev routine_words : List String
routine_words = "procedure" ∷ "proc" ∷ "function" ∷ "trigger" ∷ "event" ∷ []

abbrev object_words : List String
object_words =
    "table" ∷ "view" ∷ "index" ∷ "unique" ∷ "schema" ∷ "database" ∷ "sequence" ∷ "type" ∷ "user"
    ∷ "role" ∷ "materialized" ∷ "temporary" ∷ "temp" ∷ "extension" ∷ "as" ∷ "select" ∷ []

-- The loop of `routineDefinition`.
unfoldable pub names_routine : List Token → Bool
unfolding any_word
names_routine [] = false
names_routine (t ∷ ts) =
    let rest = names_routine ts in
    if not (t.depth == 0)
    then false
    else if any_word t.lower routine_words
    then true
    else if any_word t.lower object_words
    then false
    else rest

-- `routineDefinition`.
unfoldable pub routine_definition : List Token → Bool
unfolding names_routine
routine_definition [] = false
routine_definition (t ∷ ts) =
    if not (is_word t.lower "create") then false else names_routine (take 15 ts)

-- The `switch` on a token of a routine: `next` is the Lower of the token behind it.
unfoldable pub block_depth : Token → Bytes → ℕ → ℕ
unfolding any_word bytes_eq
block_depth t next depth =
    if is_word t.lower "case"
    then depth + 1
    else if is_word t.lower "begin"
    then if not (any_word next ("tran" ∷ "transaction" ∷ "distributed" ∷ "work" ∷ []))
      then depth + 1
      else depth
    else if is_word t.lower "end"
    then if ltb 0 depth && not (any_word next ("if" ∷ "loop" ∷ "while" ∷ "repeat" ∷ []))
      then depth - 1
      else depth
    else depth

abbrev pub add_part : Bytes → List Bytes → List Bytes
add_part [] parts = parts
add_part (c ∷ cs) parts = (c ∷ cs) ∷ parts

-- The test that ends a statement at a token.
unfoldable pub ends_statement : Bool → ℕ → Token → Bool
unfolding bytes_eq
ends_statement routine depth t = is_word t.text ";" && t.depth == 0 && (not routine || depth == 0)

-- The loop; `first` says that the next token is a statement's first one.
unfoldable pub split_loop : Bytes → List Token → Bool → ℕ → Bool → ℕ → List Bytes
split_loop sql [] routine depth first start = add_part (trim_space (drop start sql)) []
split_loop sql (t ∷ ts) routine depth first start =
    let routine' = if first then routine_definition (t ∷ ts) else routine in
    let depth' = if routine' && t.depth == 0 then block_depth t (next_lower ts) depth else depth in
    elim (ends_statement routine' depth' t) [
      | true ↦
          add_part (trim_space (slice sql start t.start)) (split_loop sql ts routine' 0 true t.end)
      | false ↦ split_loop sql ts routine' depth' false start
    ]

-- `splitStatements`.
unfoldable pub split_statements : Runtime → Dialect → Bytes → Result (List Bytes)
unfolding split_loop
split_statements rt d sql =
    lex_dialect rt d sql >>= λ tokens. ok (split_loop sql tokens false 0 true 0)

-- The definitions of this module and those that it calls, to run them.
unfoldable pub run_split : Runtime → Dialect → Bytes → Result (List Bytes)
unfolding split_statements lex_dialect routine_definition block_depth ends_statement next_lower
    trim_space
run_split = split_statements
