-- ===== src/SqlGuard/Constant.antt =====
-- The tests for a WHERE that holds on every row: `constantBoolean`, `wrapsAll`, `literalToken`,
-- `whereIsTautology`, `whereAtDepthIsTautology` and `writesHaveEffectiveWhere` of
-- rowset-core/sqlguard/parser.go. The pair (known, value) is an `Option Bool`.
pub mod Writes
use rowset_studio.Common.{
  ℕ, zero, suc, ◌+◌, ◌-◌, Bool, true, false, not, ◌&&◌, ◌||◌, Option, none, some, List, [], ◌∷◌,
  ◌++◌, String, Bytes, codes, bytes_eq, is_word, has_prefix, ltb, leb, ◌==◌, if◌then◌else◌, length,
  all,
}
use rowset_studio.SqlGuard.Types.{Runtime, to_upper, equal_fold, Token, keyword, reserved_word}

abbrev last_token : Token → List Token → Token
last_token t [] = t
last_token t (u ∷ ts) = last_token u ts

abbrev pub but_last : List Token → List Token
but_last [] = []
but_last (t ∷ []) = []
but_last (t ∷ u ∷ ts) = t ∷ but_last (u ∷ ts)

-- `wrapsAll`.
unfoldable pub wraps_all : List Token → Bool
unfolding bytes_eq
wraps_all [] = false
wraps_all (t ∷ []) = false
wraps_all (t ∷ u ∷ ts) =
    let l = last_token u ts in
    is_word t.text "("
    && is_word l.text ")"
    && t.depth == l.depth
    && all (λ x. ltb t.depth x.depth) (but_last (u ∷ ts))

abbrev tail_tokens : List Token → List Token
tail_tokens [] = []
tail_tokens (t ∷ ts) = ts

-- `for wrapsAll(tokens)`: every turn takes two tokens away.
unfoldable pub unwrap : ℕ → List Token → List Token
unfolding wraps_all
unwrap zero ts = ts
unwrap (suc fuel) ts = elim (wraps_all ts) [
  | true ↦ unwrap fuel (but_last (tail_tokens ts))
  | false ↦ ts
]

abbrev pub onto_first : Token → List (List Token) → List (List Token)
onto_first t [] = (t ∷ []) ∷ []
onto_first t (o ∷ os) = (t ∷ o) ∷ os

-- The operands between the keywords `word` at a depth; one operand if there is no such keyword.
unfoldable pub operands : String → ℕ → List Token → List (List Token)
unfolding keyword
operands word depth [] = [] ∷ []
operands word depth (t ∷ ts) =
    let rest = operands word depth ts in
    if t.depth == depth && keyword t word then [] ∷ rest else onto_first t rest

-- The loop over the operands of `or` or `and`, with its variables `allKnown` and `result`.
unfoldable pub operand_loop :
    (List Token → Option Bool) → Bool → Bool → Bool → List (List Token) → Option Bool
operand_loop rec is_or all_known result [] = if all_known then some result else none
operand_loop rec is_or all_known result (o ∷ os) = elim (rec o) [
  | none ↦ operand_loop rec is_or false result os
  | some value ↦ elim (is_or && value) [
    | true ↦ some true
    | false ↦ elim (not is_or && not value) [
      | true ↦ some false
      | false ↦
          operand_loop rec is_or all_known ((result && value) || (is_or && (result || value))) os
    ]
  ]
]

-- The loop of `whereIsTautology` that collects the expression.
unfoldable pub where_expression : Bool → List Token → List Token
unfolding keyword reserved_word bytes_eq
where_expression started [] = []
where_expression false (t ∷ ts) = where_expression (keyword t "where" && t.depth == 0) ts
where_expression true (t ∷ ts) =
    let rest = where_expression true ts in
    if t.depth == 0 && reserved_word t && not (is_word t.lower "where") then [] else t ∷ rest

unfoldable pub expression_at : ℕ → List Token → List Token
unfolding reserved_word
expression_at depth [] = []
expression_at depth (t ∷ ts) =
    let rest = expression_at depth ts in
    if ltb t.depth depth || (t.depth == depth && reserved_word t) then [] else t ∷ rest

-- The inner loop of `writesHaveEffectiveWhere`: the tokens behind the WHERE of a write.
unfoldable pub find_where : ℕ → List Token → Option (List Token)
unfolding keyword
find_where depth [] = none
find_where depth (c ∷ cs) =
    let rest = find_where depth cs in
    if ltb c.depth depth
    then none
    else if c.depth == depth && keyword c "where"
    then some cs
    else rest

-- A token that begins a write; `after_for` says that the token before it is FOR.
unfoldable pub begins_write : Bool → Token → Bool
unfolding keyword
begins_write after_for t =
    (keyword t "update" || keyword t "merge" || keyword t "delete") && not after_for

module _ (rt : Runtime) where
  -- `literalToken`.
  unfoldable pub literal_token : Bytes → Bool
  unfolding to_upper has_prefix
  literal_token text = elim (rt.parse_float text) [
    | some _ ↦ true
    | none ↦ has_prefix text (codes "'") || has_prefix (to_upper rt text) (codes "N'")
  ]

  abbrev compare_floats : Bytes → Bytes → (rt.Float → rt.Float → Option Bool) → Option Bool
  compare_floats left right test = elim (rt.parse_float left) [
    | none ↦ none
    | some l ↦ elim (rt.parse_float right) [ none ↦ none | some r ↦ test l r ]
  ]

  -- Three tokens.
  compare_one : Bytes → Bytes → Bytes → Option Bool
  unfolding equal_fold literal_token bytes_eq
  compare_one left op right =
      if is_word op "="
      then if equal_fold rt left right
        then some true
        else if literal_token left && literal_token right
        then some false
        else none
      else compare_floats left right (λ l r.
        if is_word op ">"
        then some (rt.float_lt r l)
        else if is_word op "<"
        then some (rt.float_lt l r)
        else none)

  -- Four tokens: the lexer splits the operators of two bytes.
  compare_two : Bytes → Bytes → Bytes → Option Bool
  unfolding equal_fold literal_token bytes_eq
  compare_two left op right =
      if is_word op "!=" || is_word op "<>"
      then if equal_fold rt left right
        then some false
        else if literal_token left && literal_token right
        then some true
        else none
      else if is_word op "<=" || is_word op ">="
      then compare_floats left right (λ l r.
        some ((is_word op "<=" && rt.float_le l r) || (is_word op ">=" && rt.float_le r l)))
      else none

  compare_tokens : List Token → Option Bool
  unfolding compare_one compare_two
  compare_tokens (a ∷ b ∷ c ∷ []) = compare_one a.text b.text c.text
  compare_tokens (a ∷ b ∷ c ∷ e ∷ []) = compare_two a.text (b.text ++ c.text) e.text
  compare_tokens _ = none

  -- The tests behind those for `or` and `and`.
  unfoldable pub constant_atom : (List Token → Option Bool) → List Token → Option Bool
  unfolding compare_tokens keyword bytes_eq
  constant_atom rec [] = none
  constant_atom rec (t ∷ []) =
      if not t.quoted && is_word t.lower "true"
      then some true
      else if not t.quoted && is_word t.lower "false"
      then some false
      else none
  constant_atom rec (t ∷ u ∷ ts) =
      if keyword t "not"
      then elim (rec (u ∷ ts)) [ none ↦ none | some value ↦ some (not value) ]
      else compare_tokens (t ∷ u ∷ ts)

  abbrev several : List (List Token) → Bool
  several (o ∷ p ∷ os) = true
  several _ = false

  unfoldable pub constant_step : (List Token → Option Bool) → List Token → Option Bool
  unfolding constant_atom operands operand_loop
  constant_step rec [] = none
  constant_step rec (t ∷ ts) =
      let ors = operands "or" t.depth (t ∷ ts) in
      let ands = operands "and" t.depth (t ∷ ts) in
      if several ors
      then operand_loop rec true true false ors
      else if several ands
      then operand_loop rec false true true ands
      else constant_atom rec (t ∷ ts)

  -- `constantBoolean`: each call is on fewer tokens, so a fuel above their number is enough.
  unfoldable pub constant_loop : ℕ → List Token → Option Bool
  unfolding constant_step unwrap
  constant_loop zero ts = none
  constant_loop (suc fuel) ts = constant_step (constant_loop fuel) (unwrap (length ts) ts)

  unfoldable pub constant_boolean : List Token → Option Bool
  unfolding constant_loop
  constant_boolean ts = constant_loop (suc (length ts)) ts

  abbrev pub is_true : Option Bool → Bool
  is_true none = false
  is_true (some b) = b

  -- `whereIsTautology`.
  unfoldable pub where_is_tautology : List Token → Bool
  unfolding constant_boolean where_expression
  where_is_tautology ts = is_true (constant_boolean (where_expression false ts))

  -- `whereAtDepthIsTautology`.
  unfoldable pub where_at_depth_is_tautology : List Token → ℕ → Bool
  unfolding constant_boolean expression_at
  where_at_depth_is_tautology ts depth = is_true (constant_boolean (expression_at depth ts))

  -- The write at depth `depth` is held by the WHERE behind it.
  unfoldable pub effective_where : ℕ → List Token → Bool
  effective_where depth ts = elim (find_where depth ts) [
    | none ↦ false
    | some rest ↦ not (where_at_depth_is_tautology rest depth)
  ]

  unfoldable pub writes_loop : Bool → Bool → List Token → Bool
  writes_loop found after_for [] = found
  writes_loop found after_for (t ∷ ts) =
      let next = keyword t "for" in
      elim (begins_write after_for t) [
        | true ↦ elim (effective_where t.depth ts) [
          | true ↦ writes_loop true next ts
          | false ↦ false
        ]
        | false ↦ writes_loop found next ts
      ]

  -- `writesHaveEffectiveWhere`.
  unfoldable pub writes_have_effective_where : List Token → Bool
  writes_have_effective_where = writes_loop false false

  -- The definitions that `writesHaveEffectiveWhere` calls, to run them.
  unfoldable pub run_writes : List Token → Bool
  unfolding writes_have_effective_where writes_loop begins_write effective_where find_where
      where_at_depth_is_tautology keyword
  run_writes = writes_have_effective_where
