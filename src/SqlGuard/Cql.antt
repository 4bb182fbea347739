-- ===== src/SqlGuard/Cql.antt =====
-- rowset-core/sqlguard/cql.go: `ParseCQL`, one CQL statement or one batch.
pub mod Batches
use rowset_studio.Common.{
  Bool, true, false, not, ◌&&◌, ◌||◌, Option, none, some, List, [], ◌∷◌, ◌++◌, Bytes, bytes_eq,
  is_word, if◌then◌else◌, slice, trim_space,
}
use rowset_studio.SqlGuard.Cache.{Cache, parse_dialect}
use rowset_studio.SqlGuard.Lexer.{lex_dialect}
use rowset_studio.SqlGuard.Split.{split_statements}
use rowset_studio.SqlGuard.Types.{
  Runtime, generic, Kind, insert, update, delete, unknown, kind_eq, Token, Info, bare_info,
  unsupported, Error, unclassifiable, one_cql_statement, missing_apply_batch, no_batch_statements,
  unsupported_in_batch, Result, ok, err,
}

-- The answer of a parse, with the parse cache behind it.
abbrev pub Answer : Type 0
Answer = (Info × Option Error) × Cache

-- `Info{Kind: Unknown, Raw: raw}` with an error; its Dialect is the empty string.
abbrev refused : Bytes → Error → Cache → Answer
refused raw e cache = ((bare_info (unsupported []) unknown raw, some e), cache)

-- The token BATCH of a text that begins with BEGIN, and the tokens behind it.
unfoldable pub batch_token : List Token → Option (Token × List Token)
unfolding bytes_eq
batch_token [] = none
batch_token (t ∷ ts) = if is_word t.lower "batch" then some (t, ts) else none

unfoldable pub skip_batch_kind : List Token → List Token
unfolding bytes_eq
skip_batch_kind [] = []
skip_batch_kind (t ∷ ts) =
    if is_word t.lower "unlogged" || is_word t.lower "counter" then ts else t ∷ ts

-- The token APPLY in front of a BATCH.
unfoldable pub find_apply : List Token → Option Token
unfolding bytes_eq
find_apply [] = none
find_apply (t ∷ []) = none
find_apply (t ∷ u ∷ ts) =
    let rest = find_apply (u ∷ ts) in
    if is_word t.lower "apply" && is_word u.lower "batch" then some t else rest

-- The statements that a batch may hold.
unfoldable pub batch_kind : Kind → Bool
unfolding kind_eq
batch_kind kind = kind_eq kind insert || kind_eq kind update || kind_eq kind delete

-- What the loop does with the record of a child.
unfoldable pub merge_child : Info → Info → Info
unfolding kind_eq
merge_child result info =
    let listed = record result { tables = result.tables ++ info.tables } in
    let scoped =
      if (kind_eq info.kind update || kind_eq info.kind delete) && not info.has_where
      then record listed { has_where = false }
      else listed in
    if kind_eq info.kind delete
    then record scoped { kind = delete; command = delete }
    else if kind_eq info.kind update && not (kind_eq scoped.kind delete)
    then record scoped { kind = update; command = update }
    else scoped

module _ (rt : Runtime) where
  -- The loop over the children of a batch.
  unfoldable pub children_loop : Bytes → Info → List Bytes → Cache → Answer
  unfolding parse_dialect batch_kind merge_child
  children_loop raw result [] cache = ((result, none), cache)
  children_loop raw result (child ∷ rest) cache =
      let ((info, error), cache') = parse_dialect rt generic child cache in
      let later = children_loop raw (merge_child result info) rest cache' in
      let refusal = refused raw unsupported_in_batch cache' in
      elim error [ some e ↦ refusal | none ↦ if not (batch_kind info.kind) then refusal else later ]

  abbrev pub batch_start : Bytes → Info
  batch_start raw = record (bare_info (unsupported []) insert raw) {
    command = insert;
    has_where = true;
  }

  abbrev pub parse_children : Bytes → Result (List Bytes) → Cache → Answer
  parse_children raw (err e) cache = refused raw no_batch_statements cache
  parse_children raw (ok []) cache = refused raw no_batch_statements cache
  parse_children raw (ok (c ∷ cs)) cache = children_loop raw (batch_start raw) (c ∷ cs) cache

  abbrev parse_batch : Bytes → Token → List Token → Cache → Answer
  parse_batch raw batch rest cache = elim (find_apply rest) [
    | none ↦ refused raw missing_apply_batch cache
    | some apply ↦
        parse_children raw (split_statements rt generic (slice raw batch.end apply.start)) cache
  ]

  abbrev parse_one : Bytes → Cache → Answer
  parse_one raw cache =
      let ((info, error), cache') = parse_dialect rt generic raw cache in
      elim error [
        | some e ↦ ((info, some e), cache')
        | none ↦
            if info.is_script then refused raw one_cql_statement cache' else ((info, none), cache')
      ]

  -- `ParseCQL` behind the lexer.
  unfoldable pub parse_cql_tokens : Bytes → List Token → Cache → Answer
  unfolding batch_token skip_batch_kind find_apply split_statements children_loop parse_dialect
      bytes_eq
  parse_cql_tokens raw [] cache = refused raw unclassifiable cache
  parse_cql_tokens raw (t ∷ ts) cache =
      if not (is_word t.lower "begin")
      then parse_one raw cache
      else elim (batch_token (skip_batch_kind ts)) [
        | none ↦ parse_dialect rt generic raw cache
        | some (batch, rest) ↦ parse_batch raw batch rest cache
      ]

  -- `ParseCQL`.
  unfoldable pub parse_cql : Bytes → Cache → Answer
  unfolding trim_space lex_dialect parse_cql_tokens
  parse_cql cql cache =
      let raw = trim_space cql in
      elim (lex_dialect rt generic raw) [
        | err e ↦ refused raw unclassifiable cache
        | ok tokens ↦ parse_cql_tokens raw tokens cache
      ]
