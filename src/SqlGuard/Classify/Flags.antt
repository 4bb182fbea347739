-- ===== src/SqlGuard/Classify/Flags.antt =====
-- The flags of a statement against its kind: what drops or truncates is DDL, however it is wrapped.
use rowset_studio.Common.{
  ◌≤◌, ◌≡◌, refl, ◌⊎◌, inl, inr, ap, true, false, ◌||◌, List, [], ◌∷◌, Bytes, arith, trim_space,
  Option-cases,
}
use rowset_studio.SqlGuard.Classify.{
  token_kind, block_rank, raise_kind, block_token, block_loop, classify_block, classify_first,
  default_command, where_of, classify_tokens, classify_statement, classify_lexed,
}
use rowset_studio.SqlGuard.Effects.{
  mark_control, mark_tokens, mark_session_effects, writes_only_to_a_table_variable,
  demote_table_variable, promote_select_into,
}
use rowset_studio.SqlGuard.Lexer.{lex_dialect}
use rowset_studio.SqlGuard.Tables.{extract_tables}
use rowset_studio.SqlGuard.Types.{
  Runtime, Dialect, Kind, unset, select, insert, update, delete, ddl, session, kind_eq_iff, Token,
  Info, bare_info, Result, ok, err,
}

-- A record that marks a DROP or a TRUNCATE has the kind DDL.
abbrev FlagsDdl : Info → Type 0
FlagsDdl i = ((i.is_drop || i.is_truncate) ≡ false) ⊎ (i.kind ≡ ddl)

block_rank-le-ddl : (k : Kind) → block_rank k ≤ block_rank ddl
unfolding block_rank
block_rank-le-ddl unset = omega arith
block_rank-le-ddl _ = omega arith

eq-ddl_of_rank : (k : Kind) → block_rank ddl ≤ block_rank k → k ≡ ddl
unfolding block_rank
eq-ddl_of_rank ddl h = refl
eq-ddl_of_rank unset h = absurd (omega arith)
eq-ddl_of_rank _ h = absurd (omega arith)

raise_kind-FlagsDdl : (i : Info) (k : Kind) → FlagsDdl i → FlagsDdl (raise_kind i k)
unfolding raise_kind
raise_kind-FlagsDdl i k h =
    ground (arith, block_rank-le-ddl k, ap block_rank {x = i.kind} {y = ddl})

-- Raised to DDL, a record has the kind DDL.
raise_kind-ddl : (i : Info) → (raise_kind i ddl).kind ≡ ddl
unfolding raise_kind
raise_kind-ddl i = ground (arith, block_rank-le-ddl i.kind, eq-ddl_of_rank i.kind)

block_token-FlagsDdl : (i : Info) (t : Token) → FlagsDdl i → FlagsDdl (block_token i t)
unfolding block_token
block_token-FlagsDdl i t h = elim (Option-cases (token_kind t.lower)) [
  | inl e ↦
      rw (e, block_token)
        (ground (
          arith,
          raise_kind-ddl (record i { is_drop = true }),
          raise_kind-ddl (record i { is_truncate = true }),
          raise_kind-ddl i,
        ))
  | inr (k, e) ↦ rw (e, block_token) (raise_kind-FlagsDdl i k h)
]

block_loop-FlagsDdl : (i : Info) (ts : List Token) → FlagsDdl i → FlagsDdl (block_loop i ts)
unfolding block_loop
block_loop-FlagsDdl i [] h = h
block_loop-FlagsDdl i (t ∷ ts) h =
    block_loop-FlagsDdl (block_token i t) ts (block_token-FlagsDdl i t h)

classify_block-FlagsDdl :
    (i : Info) (ts : List Token)
    → (i.is_drop || i.is_truncate) ≡ false
    → FlagsDdl (classify_block i ts)
unfolding classify_block
classify_block-FlagsDdl i ts h =
    block_loop-FlagsDdl (record i { kind = session; command = session }) ts (inl h)

classify_first-FlagsDdl :
    (i : Info) (t : Token) (ts : List Token)
    → (i.is_drop || i.is_truncate) ≡ false
    → FlagsDdl (classify_first i t ts)
unfolding classify_first
classify_first-FlagsDdl i t ts h =
    ground
      (arith, classify_block-FlagsDdl i ts, classify_block-FlagsDdl (record i { kind = select }) ts)

default_command-FlagsDdl : (i : Info) → FlagsDdl i → FlagsDdl (default_command i)
unfolding default_command
default_command-FlagsDdl i h = ground arith

-- What the session effects leave alone.
record SameKind (i j : Info) : Type 0 where
  pub kind : j.kind ≡ i.kind
  pub is_drop : j.is_drop ≡ i.is_drop
  pub is_truncate : j.is_truncate ≡ i.is_truncate

mark_control-SameKind : (i : Info) (t : Token) (ts : List Token) → SameKind i (mark_control i t ts)
unfolding mark_control
mark_control-SameKind i t ts = ground arith

mark_tokens-SameKind : (i : Info) (ts : List Token) → SameKind i (mark_tokens i ts)
unfolding mark_tokens
mark_tokens-SameKind i [] = ground arith
mark_tokens-SameKind i (t ∷ ts) = ground (arith, mark_control-SameKind i t ts)

mark_session_effects-SameKind : (i : Info) → SameKind i (mark_session_effects i)
unfolding mark_session_effects
mark_session_effects-SameKind i = mark_tokens-SameKind i i.tokens

FlagsDdl-SameKind : {i j : Info} → SameKind i j → FlagsDdl i → FlagsDdl j
FlagsDdl-SameKind s h = ground arith

demote_table_variable-FlagsDdl : (i : Info) → FlagsDdl i → FlagsDdl (demote_table_variable i)
unfolding demote_table_variable writes_only_to_a_table_variable
demote_table_variable-FlagsDdl i h =
    ground (arith, kind_eq_iff i.kind insert, kind_eq_iff i.kind update, kind_eq_iff i.kind delete)

promote_select_into-FlagsDdl : (i : Info) → FlagsDdl i → FlagsDdl (promote_select_into i)
unfolding promote_select_into
promote_select_into-FlagsDdl i h = ground arith

classify_tokens-FlagsDdl :
    (rt : Runtime) (d : Dialect) (raw : Bytes) (t : Token) (ts : List Token)
    → FlagsDdl (classify_tokens rt d raw t ts)
unfolding classify_tokens
classify_tokens-FlagsDdl rt d raw t ts =
    let tokens = t ∷ ts in
    let opened = record (bare_info d unset raw) { tokens = tokens } in
    let named = default_command (classify_first opened t ts) in
    let scoped = record named { has_where = where_of rt named.kind tokens } in
    let marked = mark_session_effects scoped in
    let named_ok : FlagsDdl named =
      default_command-FlagsDdl (classify_first opened t ts)
        (classify_first-FlagsDdl opened t ts refl) in
    let marked_ok : FlagsDdl marked =
      FlagsDdl-SameKind (mark_session_effects-SameKind scoped) named_ok in
    let referring = record marked { tables = extract_tables tokens } in
    promote_select_into-FlagsDdl (demote_table_variable referring)
      (demote_table_variable-FlagsDdl referring marked_ok)

classify_lexed-FlagsDdl :
    (rt : Runtime) (d : Dialect) (raw : Bytes) (r : Result (List Token))
    → FlagsDdl (classify_lexed rt d raw r).0
unfolding classify_lexed
classify_lexed-FlagsDdl rt d raw (err e) = inl refl
classify_lexed-FlagsDdl rt d raw (ok []) = inl refl
classify_lexed-FlagsDdl rt d raw (ok (t ∷ ts)) = classify_tokens-FlagsDdl rt d raw t ts

classify_statement-FlagsDdl :
    (rt : Runtime) (d : Dialect) (statement : Bytes)
    → FlagsDdl (classify_statement rt d statement).0
unfolding classify_statement
classify_statement-FlagsDdl rt d statement =
    let raw = trim_space statement in classify_lexed-FlagsDdl rt d raw (lex_dialect rt d raw)

-- A statement that is marked as a DROP or as a TRUNCATE has the kind DDL, also where the word
-- stands inside a block, behind IF or WHILE, or under EXPLAIN ANALYZE.
pub classify_statement-ddl :
    (rt : Runtime) (d : Dialect) (statement : Bytes)
    → ((classify_statement rt d statement).0.is_drop
        || (classify_statement rt d statement).0.is_truncate)
      ≡ true
    → (classify_statement rt d statement).0.kind ≡ ddl
classify_statement-ddl rt d statement h = ground (arith, classify_statement-FlagsDdl rt d statement)
