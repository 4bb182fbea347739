-- ===== src/Policy/Scripts.antt =====
-- From the text of a script to the decision: what one of its statements does is judged.
use rowset_studio.Common.{
  ◌≡◌, refl, inl, inr, ◌∙◌, sym, ap, subst, true, false, not, ◌&&◌, ◌||◌, List, [], ◌∷◌, arith,
  Bool-cases, any, Bytes, ◌≤◌,
}
use rowset_studio.Policy.Guardrails.{
  blocked, breaks_rule, breaks_known, writes_or_unclear, effect-evaluate,
}
use rowset_studio.Policy.{deny, Input, Rule, evaluate}
use rowset_studio.SqlGuard.Script.Kinds.{Covers, merge_script-Riskiest}
use rowset_studio.SqlGuard.Script.Unscoped.{lacks_where-merge_script}
use rowset_studio.SqlGuard.Script.{
  merge_script, script_parts, script_rank, parse_split, parse_statements, parse_text,
}
use rowset_studio.SqlGuard.Split.{split_statements}
use rowset_studio.SqlGuard.Types.{
  Runtime, Dialect, Kind, unset, insert, delete, other, unknown, kind_eq, Info, lacks_where,
  is_write, ok,
}

-- A text of two statements or more is read as a script.
parse_text-script :
    (rt : Runtime) (d : Dialect) (sql s t : Bytes) (ss : List Bytes)
    → split_statements rt d sql ≡ ok (s ∷ t ∷ ss)
    → (parse_text rt d sql).0 ≡ merge_script rt d sql (s ∷ t ∷ ss)
unfolding parse_text
parse_text-script rt d sql s t ss h = rw h (unfold parse_split parse_statements in refl)

blocked-lacks_delete :
    (input : Input)
    → lacks_where input.statement delete ≡ true
    → input.cleared ≡ false
    → input.disabled "deny_delete_without_where" ≡ false
    → blocked input ≡ true
unfolding blocked breaks_rule breaks_known
blocked-lacks_delete input l c k = ground arith

-- No kind below an insert's rank is a write; a write, or what is riskier, is not read-only.
rank-write : (k : Kind) → is_write k ≡ true → script_rank insert ≤ script_rank k
unfolding script_rank is_write kind_eq
rank-write unset h = cc
rank-write _ h = ground arith

blocked_of_rank :
    (k : Kind)
    → script_rank insert ≤ script_rank k
    → (kind_eq k unknown || (is_write k || kind_eq k other)) ≡ true
unfolding script_rank is_write kind_eq
blocked_of_rank unset h = ground arith
blocked_of_rank _ h = ground arith

any-Covers :
    (k : Kind) (ps : List Info)
    → Covers k ps
    → any (λ p. is_write p.kind) ps ≡ true
    → script_rank insert ≤ script_rank k
any-Covers k [] c h = cc
any-Covers k (p ∷ ps) c h = elim (Bool-cases (is_write p.kind)) [
  | inl e ↦ omega (arith, rank-write p.kind e, c.0)
  | inr e ↦ any-Covers k ps c.1 (ground arith)
]

blocked-read_only :
    (input : Input)
    → script_rank insert ≤ script_rank input.statement.kind
    → input.read_only ≡ true
    → input.cleared ≡ false
    → blocked input ≡ true
unfolding blocked writes_or_unclear
blocked-read_only input h r c = ground (arith, blocked_of_rank input.statement.kind h)

deny_of_blocked :
    (rules : List Rule) (input : Input)
    → blocked input ≡ true
    → (evaluate rules input).effect ≡ deny
deny_of_blocked rules input h = ground (arith, effect-evaluate rules input)

module _ (rt : Runtime) (d : Dialect) (sql s t : Bytes) (ss : List Bytes) (rules : List Rule)
    (input : Input) (splits : split_statements rt d sql ≡ ok (s ∷ t ∷ ss))
    (parsed : input.statement ≡ (parse_text rt d sql).0) (uncleared : input.cleared ≡ false) where
  -- A script of two statements or more, not cleared for its caller, in which some statement is a
  -- DELETE without a WHERE is denied, whatever the other statements are and whatever rules are
  -- registered, if the workspace has not turned off the rule on such a DELETE.
  pub evaluate-unscoped_delete :
      input.disabled "deny_delete_without_where" ≡ false
      → any (λ p. kind_eq p.kind delete && not p.has_where) (script_parts rt d (s ∷ t ∷ ss)) ≡ true
      → (evaluate rules input).effect ≡ deny
  evaluate-unscoped_delete kept h = deny_of_blocked rules input (
      blocked-lacks_delete input
        (ap (λ i. lacks_where i delete) (parsed ∙ parse_text-script rt d sql s t ss splits)
          ∙ lacks_where-merge_script rt d sql (s ∷ t ∷ ss) delete (inr refl)
          ∙ h)
        uncleared kept)

  -- A caller who may only read is denied every script of two statements or more, not cleared for
  -- that caller, in which some statement writes, whatever the workspace has turned off and whatever
  -- the other statements are.
  pub evaluate-read_only_script :
      input.read_only ≡ true
      → any (λ p. is_write p.kind) (script_parts rt d (s ∷ t ∷ ss)) ≡ true
      → (evaluate rules input).effect ≡ deny
  evaluate-read_only_script reads h =
      let same = parsed ∙ parse_text-script rt d sql s t ss splits in
      deny_of_blocked rules input (
        blocked-read_only input
          (subst (λ (i : Info). script_rank insert ≤ script_rank i.kind) (sym same)
            (any-Covers _ _ (merge_script-Riskiest rt d sql (s ∷ t ∷ ss)).0 h))
          reads uncleared)
