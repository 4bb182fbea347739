-- ===== src/SqlGuard/Classify.antt =====
-- `classifyStatement` of rowset-core/sqlguard/parser.go and what it calls: `classifyBlock`,
-- `classifyWith`, `tokenKind` and `explainRuns`. A function that writes through `*Info` returns the new record.
pub mod Flags
use rowset_studio.SqlGuard.Effects.{
  opens_transaction, mark_control, temporary_object, mark_tokens, mark_session_effects,
  write_target, writes_only_to_a_table_variable, selects_into, select_creates_something,
  demote_table_variable, promote_select_into,
}
use rowset_studio.Common.{
  ℕ, ◌+◌, Bool, true, false, not, ◌&&◌, ◌||◌, Option, none, some, List, [], ◌∷◌, String, Bytes,
  codes, bytes_eq, is_word, any_word, has_prefix, ltb, ◌==◌, if◌then◌else◌, trim_space,
}
use rowset_studio.SqlGuard.Constant.{writes_have_effective_where, run_writes, where_is_tautology}
use rowset_studio.SqlGuard.Lexer.{lex_dialect}
use rowset_studio.SqlGuard.Split.{next_lower}
use rowset_studio.SqlGuard.Tables.{extract_tables, run_tables}
use rowset_studio.SqlGuard.Types.{
  Runtime, Dialect, Kind, unset, select, insert, update, delete, ddl, session, other, unknown,
  multi, kind_eq, Token, keyword, Info, bare_info, Error, unclassifiable, Result, ok, err,
}

-- `tokenKind`: `none` where the source returns false.
unfoldable pub token_kind : Bytes → Option Kind
unfolding any_word
token_kind value =
    if any_word value ("select" ∷ "values" ∷ "table" ∷ [])
    then some select
    else if any_word value ("insert" ∷ "replace" ∷ "upsert" ∷ [])
    then some insert
    else if any_word value ("update" ∷ "merge" ∷ [])
    then some update
    else if any_word value ("delete" ∷ [])
    then some delete
    else none

-- The map `rank` of `classifyBlock`.
unfoldable pub block_rank : Kind → ℕ
block_rank select = 1
block_rank insert = 2
block_rank update = 2
block_rank delete = 2
block_rank ddl = 3
block_rank _ = 0

abbrev block_ddl_words : List String
block_ddl_words =
    "create" ∷ "alter" ∷ "grant" ∷ "revoke" ∷ "exec" ∷ "execute" ∷ "call" ∷ "backup" ∷ "restore"
    ∷ "rename" ∷ []

-- `if operation && rank[kind] > rank[info.Kind]`.
unfoldable pub raise_kind : Info → Kind → Info
raise_kind info kind =
    if ltb (block_rank info.kind) (block_rank kind)
    then record info { kind = kind; command = kind }
    else info

-- One turn of the loop of `classifyBlock`.
unfoldable pub block_token : Info → Token → Info
block_token info t = elim (token_kind t.lower) [
  | some kind ↦ raise_kind info kind
  | none ↦
      if is_word t.lower "drop"
      then raise_kind (record info { is_drop = true }) ddl
      else if is_word t.lower "truncate"
      then raise_kind (record info { is_truncate = true }) ddl
      else if any_word t.lower block_ddl_words
      then raise_kind info ddl
      else info
]

unfoldable pub block_loop : Info → List Token → Info
block_loop info [] = info
block_loop info (t ∷ ts) = block_loop (block_token info t) ts

-- `classifyBlock`; `rest` are the tokens behind the first one.
unfoldable pub classify_block : Info → List Token → Info
classify_block info rest = block_loop (record info { kind = session; command = session }) rest

-- `explainRuns`.
unfoldable pub explain_runs : List Token → Bool
unfolding keyword
explain_runs [] = false
explain_runs (t ∷ ts) = keyword t "analyze" || keyword t "analyse" || explain_runs ts

abbrev is_change : Kind → Bool
is_change insert = true
is_change update = true
is_change delete = true
is_change _ = false

-- One turn of the loop of `classifyWith` at an operation.
abbrev with_operation : Token → Kind → Kind × Kind → Kind × Kind
with_operation t kind (command, risk) =
    (if t.depth == 0 then kind else command, if is_change kind then kind else risk)

-- The loop: `after_for` says that the token before is FOR; the state is (command, risk).
unfoldable pub with_loop : Bool → Kind × Kind → List Token → Kind × Kind
unfolding token_kind bytes_eq
with_loop after_for state [] = state
with_loop after_for state (t ∷ ts) =
    with_loop (is_word t.lower "for")
      (if after_for
        then state
        else elim (token_kind t.lower) [ none ↦ state | some kind ↦ with_operation t kind state ])
      ts

-- `classifyWith` at the first token and those behind it: (risk, command).
unfoldable pub classify_with : Token → List Token → Kind × Kind
unfolding with_loop kind_eq bytes_eq
classify_with first rest =
    let (command, risk) = with_loop (is_word first.lower "for") (select, select) rest in
    (if kind_eq risk select then command else risk, command)

abbrev read_words : List String
read_words = "select" ∷ "values" ∷ "table" ∷ "show" ∷ "describe" ∷ "desc" ∷ "pragma" ∷ "fetch" ∷ []

abbrev session_words : List String
session_words =
    "use" ∷ "start" ∷ "commit" ∷ "rollback" ∷ "savepoint" ∷ "release" ∷ "discard" ∷ "declare"
    ∷ "print" ∷ "open" ∷ "close" ∷ "deallocate" ∷ "throw" ∷ "raiserror" ∷ "return" ∷ "break"
    ∷ "continue" ∷ "goto" ∷ "go" ∷ "listen" ∷ "unlisten" ∷ "notify" ∷ []

abbrev ddl_words : List String
ddl_words =
    "create" ∷ "alter" ∷ "rename" ∷ "comment" ∷ "grant" ∷ "revoke" ∷ "call" ∷ "copy" ∷ "execute"
    ∷ "exec" ∷ "vacuum" ∷ "analyze" ∷ "attach" ∷ "detach" ∷ "do" ∷ "load" ∷ "bulk" ∷ "optimize"
    ∷ "system" ∷ "kill" ∷ "put" ∷ "get" ∷ "remove" ∷ "undrop" ∷ "refresh" ∷ "reindex" ∷ "cluster"
    ∷ "dbcc" ∷ "backup" ∷ "restore" ∷ "checkpoint" ∷ "shutdown" ∷ "reconfigure" ∷ "flush" ∷ "reset"
    ∷ "lock" ∷ "unlock" ∷ "repair" ∷ "install" ∷ "uninstall" ∷ []

abbrev with_kinds : Info → Kind × Kind → Info
with_kinds info (risk, command) = record info { kind = risk; command = command }

-- The `switch` on the first word.
unfoldable pub classify_first : Info → Token → List Token → Info
classify_first info first rest =
    let word = first.lower in
    if any_word word read_words
    then record info { kind = select }
    else if is_word word "explain"
    then if explain_runs rest
      then classify_block (record info { kind = select }) rest
      else record info { kind = select }
    else if is_word word "with"
    then with_kinds info (classify_with first rest)
    else if any_word word ("insert" ∷ "replace" ∷ "upsert" ∷ [])
    then record info { kind = insert }
    else if any_word word ("update" ∷ "merge" ∷ [])
    then record info { kind = update }
    else if is_word word "delete"
    then record info { kind = delete }
    else if is_word word "drop"
    then record info { kind = ddl; is_drop = true }
    else if is_word word "truncate"
    then record info { kind = ddl; is_truncate = true }
    else if any_word word ("begin" ∷ "if" ∷ "while" ∷ "else" ∷ [])
    then classify_block info rest
    else if is_word word "set"
    then if any_word (next_lower rest) ("global" ∷ "persist" ∷ "persist_only" ∷ [])
      then record info { kind = ddl }
      else record info { kind = session }
    else if any_word word session_words
    then record info { kind = session }
    else if any_word word ddl_words
    then record info { kind = ddl }
    else record info { kind = other }

-- `if info.Command == ""`.
unfoldable pub default_command : Info → Info
default_command info =
    if kind_eq info.command unset then record info { command = info.kind } else info

-- The loop that looks for a WHERE at the top level.
unfoldable pub any_where : List Token → Bool
unfolding keyword
any_where [] = false
any_where (t ∷ ts) = (t.depth == 0 && keyword t "where") || any_where ts

-- The tests on HasWhere behind that loop.
unfoldable pub where_of : Runtime → Kind → List Token → Bool
where_of rt kind tokens =
    if kind_eq kind update || kind_eq kind delete
    then writes_have_effective_where rt tokens
    else if any_where tokens && kind_eq kind select && where_is_tautology rt tokens
    then false
    else any_where tokens

-- `classifyStatement` behind the lexer, at the first token and those behind it.
unfoldable pub classify_tokens : Runtime → Dialect → Bytes → Token → List Token → Info
classify_tokens rt d raw first rest =
    let tokens = first ∷ rest in
    let opened = record (bare_info d unset raw) { tokens = tokens } in
    let named = default_command (classify_first opened first rest) in
    let scoped = record named { has_where = where_of rt named.kind tokens } in
    let marked = mark_session_effects scoped in
    let referring = record marked { tables = extract_tables tokens } in
    promote_select_into (demote_table_variable referring)

-- `classifyStatement` at the trimmed text and what the lexer makes of it.
unfoldable pub classify_lexed :
    Runtime → Dialect → Bytes → Result (List Token) → Info × Option Error
classify_lexed rt d raw (err e) = (bare_info d unknown raw, some unclassifiable)
classify_lexed rt d raw (ok []) = (bare_info d unknown raw, some unclassifiable)
classify_lexed rt d raw (ok (first ∷ rest)) = (classify_tokens rt d raw first rest, none)

-- `classifyStatement`: the record, and the error if there is one.
unfoldable pub classify_statement : Runtime → Dialect → Bytes → Info × Option Error
classify_statement rt d statement =
    let raw = trim_space statement in classify_lexed rt d raw (lex_dialect rt d raw)

-- The definitions of this module and those that it calls, to run them.
unfoldable pub run_classify : Runtime → Dialect → Bytes → Info × Option Error
unfolding classify_statement classify_lexed trim_space lex_dialect classify_tokens classify_first
    default_command where_of mark_session_effects mark_tokens mark_control temporary_object
    opens_transaction run_tables writes_only_to_a_table_variable select_creates_something
    demote_table_variable promote_select_into classify_block block_loop block_token raise_kind
    block_rank token_kind explain_runs classify_with next_lower any_word bytes_eq kind_eq any_where
    run_writes where_is_tautology write_target selects_into has_prefix
run_classify = classify_statement
