-- ===== src/SqlGuard/Constant/Writes.antt =====
-- By which WHERE `writesHaveEffectiveWhere` of rowset-core/sqlguard/parser.go judges each write of a statement.
use rowset_studio.Common.{
  ℕ, ◌≤◌, ◌≡◌, refl, ap, Bool, true, false, ◌&&◌, none, some, List, [], ◌∷◌, ◌++◌, arith, ◌==◌,
  Bool-cases, Option-cases, inl, inr, ◌≢◌, and-parts, not-true, ==_iff, ltb, All, ◌⊎◌,
}
use rowset_studio.SqlGuard.Constant.{find_where, effective_where, where_at_depth_is_tautology}
use rowset_studio.SqlGuard.Types.{Runtime, Token, keyword}

-- A WHERE of a write: one at its depth, before the write's parentheses close, and with a condition that
-- does not evaluate to true.
pub record Scoped (rt : Runtime) (depth : ℕ) (ts : List Token) : Type 0 where
  pub before : List Token
  pub where_token : Token
  pub after : List Token
  pub splits : ts ≡ before ++ where_token ∷ after
  pub is_where : keyword where_token "where" ≡ true
  pub at_depth : where_token.depth ≡ depth
  pub inside : All (λ t. depth ≤ t.depth) before
  pub not_constant : where_at_depth_is_tautology rt after depth ≡ false

Scoped-cons :
    (rt : Runtime) (depth : ℕ) (t : Token) {ts : List Token}
    → depth ≤ t.depth
    → Scoped rt depth ts
    → Scoped rt depth (t ∷ ts)
Scoped-cons rt depth t h s = record {
  before = t ∷ s.before;
  where_token = s.where_token;
  after = s.after;
  splits = ap (◌∷◌ t) s.splits;
  is_where = s.is_where;
  at_depth = s.at_depth;
  inside = (h, s.inside);
  not_constant = s.not_constant;
}

none-ne-some : {ts : List Token} → none ≢ some ts
none-ne-some h = cc

some-injective : {ts us : List Token} → some ts ≡ some us → us ≡ ts
some-injective h = cc

find_where-Scoped :
    (rt : Runtime) (depth : ℕ) (ts : List Token) {rest : List Token}
    → find_where depth ts ≡ some rest
    → where_at_depth_is_tautology rt rest depth ≡ false
    → Scoped rt depth ts
unfolding find_where
find_where-Scoped rt depth [] h n = cc
find_where-Scoped rt depth (t ∷ ts) {rest} h n = elim (Bool-cases (ltb t.depth depth)) [
  | inl e ↦ absurd (none-ne-some (rw e at h))
  | inr e ↦ elim (Bool-cases (t.depth == depth && keyword t "where")) [
    | inl w ↦
        let (same, word) = and-parts (t.depth == depth) (keyword t "where") w in
        record {
          before = [];
          where_token = t;
          after = ts;
          splits = refl;
          is_where = word;
          at_depth = (==_iff t.depth depth).0 same;
          inside = tt;
          not_constant = rw (← some-injective (rw (e, w) at h)) n;
        }
    | inr w ↦
        Scoped-cons rt depth t (ground arith)
          (find_where-Scoped rt depth ts {rest = rest} (rw (e, w) at h) n)
  ]
]

-- A write that has an effective WHERE has it at its own depth, before its parentheses close, and
-- the condition behind it is not constantly true.
pub effective_where-Scoped :
    (rt : Runtime) (depth : ℕ) (ts : List Token)
    → effective_where rt depth ts ≡ true
    → Scoped rt depth ts
unfolding effective_where
effective_where-Scoped rt depth ts h = elim (Option-cases (find_where depth ts)) [
  | inl e ↦ cc
  | inr (rest, e) ↦ find_where-Scoped rt depth ts e (not-true _ (rw (e, effective_where) at h))
]

-- Whether FOR stands in front of the token behind some tokens.
abbrev pub behind_for : Bool → List Token → Bool
behind_for after_for [] = after_for
behind_for after_for (t ∷ ts) = behind_for (keyword t "for") ts

-- A token that begins a write: UPDATE, MERGE or DELETE.
abbrev pub IsWriteWord : Token → Type 0
IsWriteWord t =
    (keyword t "update" ≡ true) ⊎ ((keyword t "merge" ≡ true) ⊎ (keyword t "delete" ≡ true))
