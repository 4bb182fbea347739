-- ===== src/SqlGuard/Effects.antt =====
-- What a statement does to its session, its transaction and its tables, of rowset-core/sqlguard/parser.go:
-- the loop over its tokens in `classifyStatement`, `markSessionEffects`, `writesOnlyToATableVariable` and
-- `selectCreatesSomething`.
use rowset_studio.Common.{
  Bool, true, false, not, ◌&&◌, ◌||◌, List, [], ◌∷◌, String, Bytes, codes, bytes_eq, is_word,
  any_word, has_prefix, ◌==◌, if◌then◌else◌,
}
use rowset_studio.SqlGuard.Split.{next_lower}
use rowset_studio.SqlGuard.Types.{
  select, insert, update, delete, ddl, session, kind_eq, Token, keyword, Info,
}

abbrev session_state_verbs : List String
session_state_verbs =
    "set" ∷ "declare" ∷ "open" ∷ "close" ∷ "deallocate" ∷ "fetch" ∷ "print" ∷ "raiserror" ∷ "throw"
    ∷ "waitfor" ∷ "listen" ∷ "unlisten" ∷ "prepare" ∷ "discard" ∷ "reset" ∷ []

abbrev transaction_verbs : List String
transaction_verbs = "commit" ∷ "rollback" ∷ "savepoint" ∷ "release" ∷ []

-- The words behind BEGIN or START that begin a transaction; `[]` is the end of the statement.
unfoldable pub opens_transaction : Bytes → Bool
unfolding any_word
opens_transaction [] = true
opens_transaction (c ∷ cs) =
    any_word (c ∷ cs)
      ("transaction" ∷ "tran" ∷ "work" ∷ "isolation" ∷ "deferrable" ∷ "read" ∷ "not" ∷ [])

-- The `switch` of `markSessionEffects`.
unfoldable pub mark_control : Info → Token → List Token → Info
mark_control info first rest =
    if any_word first.lower transaction_verbs
    then record info { controls_transaction = true }
    else if is_word first.lower "start" || is_word first.lower "begin"
    then if opens_transaction (next_lower rest)
      then record info { controls_transaction = true }
      else info
    else if is_word first.lower "use"
    then record info { switches_database = true }
    else info

-- The loop of `markSessionEffects`: a name with `#`, or TEMPORARY behind CREATE, DROP or DECLARE;
-- `inner` says that the index is not 0.
unfoldable pub temporary_object : Bytes → Bool → List Token → Bool
unfolding has_prefix any_word bytes_eq
temporary_object first inner [] = false
temporary_object first inner (t ∷ ts) =
    let rest = temporary_object first true ts in
    if t.quoted
    then rest
    else if has_prefix t.lower (codes "#")
    then true
    else if (is_word t.lower "temporary" || is_word t.lower "temp")
        && inner
        && any_word first ("create" ∷ "drop" ∷ "declare" ∷ [])
    then true
    else rest

unfoldable pub mark_tokens : Info → List Token → Info
mark_tokens info [] = info
mark_tokens info (first ∷ rest) =
    let marked = mark_control info first rest in
    if first.quoted
    then info
    else if any_word first.lower session_state_verbs
    then record marked { touches_session = true }
    else if temporary_object first.lower false (first ∷ rest)
    then record marked { touches_session = true }
    else marked

-- `markSessionEffects`.
unfoldable pub mark_session_effects : Info → Info
mark_session_effects info = mark_tokens info info.tokens

-- The target of a write: the text behind INTO, UPDATE or, for a delete, FROM.
unfoldable pub write_target : Bool → List Token → Bytes
unfolding bytes_eq
write_target deletes [] = []
write_target deletes (t ∷ []) = []
write_target deletes (t ∷ u ∷ ts) =
    let rest = write_target deletes (u ∷ ts) in
    if is_word t.lower "into" || is_word t.lower "update" || (is_word t.lower "from" && deletes)
    then u.text
    else rest

-- `writesOnlyToATableVariable`.
unfoldable pub writes_only_to_a_table_variable : Info → Bool
writes_only_to_a_table_variable info = elim info.tables [
  | t ∷ ts ↦ false
  | [] ↦
      if not (kind_eq info.kind insert)
        && not (kind_eq info.kind update)
        && not (kind_eq info.kind delete)
      then false
      else has_prefix (write_target (kind_eq info.kind delete) info.tokens) (codes "@")
]

-- The loop of `selectCreatesSomething`.
unfoldable pub selects_into : List Token → Bool
unfolding keyword has_prefix
selects_into [] = false
selects_into (t ∷ []) = false
selects_into (t ∷ u ∷ ts) =
    let rest = selects_into (u ∷ ts) in
    if not (keyword t "into") || not (t.depth == 0)
    then rest
    else not (has_prefix u.text (codes "@"))

-- `selectCreatesSomething`.
unfoldable pub select_creates_something : Info → Bool
select_creates_something info =
    if not (kind_eq info.kind select) then false else selects_into info.tokens

unfoldable pub demote_table_variable : Info → Info
demote_table_variable info =
    if writes_only_to_a_table_variable info then record info { kind = session } else info

unfoldable pub promote_select_into : Info → Info
promote_select_into info =
    if select_creates_something info then record info { kind = ddl; command = ddl } else info
