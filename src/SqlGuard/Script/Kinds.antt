-- ===== src/SqlGuard/Script/Kinds.antt =====
-- The kind and the flags of a script.
use rowset_studio.Common.{
  ◌≤◌, ◌≡◌, refl, ◌⊎◌, inl, inr, ◌||◌, List, [], ◌∷◌, Bytes, any, Member, All, arith, ◌∙◌, sym,
  subst,
}
use rowset_studio.SqlGuard.Script.{
  script_rank, merge_part, merge_parts, add_unscoped, unscoped_loop, script_start, scoped_script,
  merge_infos, merge_script, script_parts, tokens_or_none,
}
use rowset_studio.SqlGuard.Lexer.{lex_dialect}
use rowset_studio.SqlGuard.Types.{Runtime, Dialect, Kind, session, unknown, Token, Info}

-- What the loop over the missing WHEREs leaves alone.
record SameBut (m m' : Info) : Type 0 where
  pub kind : m'.kind ≡ m.kind
  pub has_where : m'.has_where ≡ m.has_where
  pub is_drop : m'.is_drop ≡ m.is_drop
  pub is_truncate : m'.is_truncate ≡ m.is_truncate
  pub touches_session : m'.touches_session ≡ m.touches_session
  pub controls_transaction : m'.controls_transaction ≡ m.controls_transaction
  pub switches_database : m'.switches_database ≡ m.switches_database

add_unscoped-SameBut : (m p : Info) → SameBut m (add_unscoped m p)
unfolding add_unscoped
add_unscoped-SameBut m p = ground arith

unscoped_loop-SameBut : (m : Info) (ps : List Info) → SameBut m (unscoped_loop m ps)
unfolding unscoped_loop
unscoped_loop-SameBut m [] = ground arith
unscoped_loop-SameBut m (p ∷ ps) =
    ground (arith, add_unscoped-SameBut m p, unscoped_loop-SameBut (add_unscoped m p) ps)

record Merged (m p r : Info) : Type 0 where
  rank_of_both :
      (script_rank m.kind ≤ script_rank r.kind) × (script_rank p.kind ≤ script_rank r.kind)
  kind_of_one : (r.kind ≡ m.kind) ⊎ (r.kind ≡ p.kind)

merge_part-Merged : (m p : Info) → Merged m p (merge_part m p)
unfolding merge_part
merge_part-Merged m p = ground arith

rank-merge_parts :
    (m : Info) (ps : List Info) → script_rank m.kind ≤ script_rank (merge_parts m ps).kind
unfolding merge_parts
rank-merge_parts m [] = omega arith
rank-merge_parts m (p ∷ ps) =
    omega (arith, (merge_part-Merged m p).rank_of_both, rank-merge_parts (merge_part m p) ps)

-- No part is riskier than the kind `k`.
abbrev pub Covers : Kind → List Info → Type 0
Covers k ps = All (λ p. script_rank p.kind ≤ script_rank k) ps

merge_parts-Covers : (m : Info) (ps : List Info) → Covers (merge_parts m ps).kind ps
unfolding merge_parts
merge_parts-Covers m [] = tt
merge_parts-Covers m (q ∷ ps) = (
  omega (arith, (merge_part-Merged m q).rank_of_both, rank-merge_parts (merge_part m q) ps),
  merge_parts-Covers (merge_part m q) ps,
)

-- A kind is that of the start, or that of a part.
abbrev pub KindFrom : Kind → Kind → List Info → Type 0
KindFrom start k ps = (k ≡ start) ⊎ ((p : Info) × Member p ps × (k ≡ p.kind))

KindFrom-cons :
    {start k : Kind} (q : Info) (ps : List Info) → KindFrom start k ps → KindFrom start k (q ∷ ps)
KindFrom-cons q ps (inl e) = inl e
KindFrom-cons q ps (inr (p, m, e)) = inr (p, inr m, e)

KindFrom-merge_part :
    (m q : Info) (ps : List Info) {k : Kind}
    → KindFrom (merge_part m q).kind k ps
    → KindFrom m.kind k (q ∷ ps)
KindFrom-merge_part m q ps (inr (p, h, e)) = inr (p, inr h, e)
KindFrom-merge_part m q ps (inl e) = elim (merge_part-Merged m q).kind_of_one [
  | inl e' ↦ inl (e ∙ e')
  | inr e' ↦ inr (q, inl refl, e ∙ e')
]

pub merge_parts-KindFrom : (m : Info) (ps : List Info) → KindFrom m.kind (merge_parts m ps).kind ps
unfolding merge_parts
merge_parts-KindFrom m [] = inl refl
merge_parts-KindFrom m (p ∷ ps) =
    KindFrom-merge_part m p ps (merge_parts-KindFrom (merge_part m p) ps)

-- The record of a script of some parts keeps the kind of the first loop.
pub kind-merge_infos :
    (d : Dialect) (sql : Bytes) (tokens : List Token) (p : Info) (ps : List Info)
    → (merge_infos d sql tokens (p ∷ ps)).kind ≡ (merge_parts (script_start d sql) (p ∷ ps)).kind
unfolding merge_infos
kind-merge_infos d sql tokens p ps =
    (unscoped_loop-SameBut (scoped_script d sql tokens (p ∷ ps)) (p ∷ ps)).kind
    ∙ unfold scoped_script in refl

-- A kind covers the parts, and is that of one of them, or session, or unknown if there is none.
abbrev pub Riskiest : Kind → List Info → Type 0
Riskiest k ps = Covers k ps × (KindFrom session k ps ⊎ ((ps ≡ []) × (k ≡ unknown)))

merge_infos-Riskiest :
    (d : Dialect) (sql : Bytes) (tokens : List Token) (ps : List Info)
    → Riskiest (merge_infos d sql tokens ps).kind ps
merge_infos-Riskiest d sql tokens [] = (tt, inr (refl, unfold merge_infos in refl))
merge_infos-Riskiest d sql tokens (q ∷ ps) =
    subst (λ k. Riskiest k (q ∷ ps)) (sym (kind-merge_infos d sql tokens q ps))
      (
        merge_parts-Covers (script_start d sql) (q ∷ ps),
        inl (merge_parts-KindFrom (script_start d sql) (q ∷ ps)),
      )

pub unscoped-merge_parts : (m : Info) (ps : List Info) → (merge_parts m ps).unscoped ≡ m.unscoped
unfolding merge_parts merge_part
unscoped-merge_parts m [] = refl
unscoped-merge_parts m (p ∷ ps) = unscoped-merge_parts (merge_part m p) ps ∙ ground arith

-- The flags are the unions of the parts' flags.
record UnionOf (m : Info) (ps : List Info) (r : Info) : Type 0 where
  pub is_drop : r.is_drop ≡ (m.is_drop || any (λ p. p.is_drop) ps)
  pub is_truncate : r.is_truncate ≡ (m.is_truncate || any (λ p. p.is_truncate) ps)
  pub touches_session : r.touches_session ≡ (m.touches_session || any (λ p. p.touches_session) ps)
  pub controls_transaction :
      r.controls_transaction ≡ (m.controls_transaction || any (λ p. p.controls_transaction) ps)
  pub switches_database :
      r.switches_database ≡ (m.switches_database || any (λ p. p.switches_database) ps)

merge_parts-UnionOf : (m : Info) (ps : List Info) → UnionOf m ps (merge_parts m ps)
unfolding merge_parts merge_part
merge_parts-UnionOf m [] = ground arith
merge_parts-UnionOf m (p ∷ ps) = ground (arith, merge_parts-UnionOf (merge_part m p) ps)

scoped_script-UnionOf :
    (d : Dialect) (sql : Bytes) (tokens : List Token) (ps : List Info)
    → UnionOf (script_start d sql) ps (scoped_script d sql tokens ps)
unfolding scoped_script
scoped_script-UnionOf d sql tokens ps =
    let u = merge_parts-UnionOf (script_start d sql) ps in
    record {
      is_drop = u.is_drop;
      is_truncate = u.is_truncate;
      touches_session = u.touches_session;
      controls_transaction = u.controls_transaction;
      switches_database = u.switches_database;
    }

UnionOf-SameBut : {m r r' : Info} {ps : List Info} → SameBut r r' → UnionOf m ps r → UnionOf m ps r'
UnionOf-SameBut s u = record {
  is_drop = s.is_drop ∙ u.is_drop;
  is_truncate = s.is_truncate ∙ u.is_truncate;
  touches_session = s.touches_session ∙ u.touches_session;
  controls_transaction = s.controls_transaction ∙ u.controls_transaction;
  switches_database = s.switches_database ∙ u.switches_database;
}

merge_infos-UnionOf :
    (d : Dialect) (sql : Bytes) (tokens : List Token) (ps : List Info)
    → UnionOf (script_start d sql) ps (merge_infos d sql tokens ps)
unfolding merge_infos
merge_infos-UnionOf d sql tokens [] = ground arith
merge_infos-UnionOf d sql tokens (p ∷ ps) =
    let u =
      UnionOf-SameBut (unscoped_loop-SameBut (scoped_script d sql tokens (p ∷ ps)) (p ∷ ps))
        (scoped_script-UnionOf d sql tokens (p ∷ ps)) in
    record {
      is_drop = u.is_drop;
      is_truncate = u.is_truncate;
      touches_session = u.touches_session;
      controls_transaction = u.controls_transaction;
      switches_database = u.switches_database;
    }

module _ (rt : Runtime) (d : Dialect) (sql : Bytes) (statements : List Bytes) where
  -- A script is at least as risky as each of its statements, and its kind is that of one of them,
  -- or session, or unknown if it has no statement.
  pub merge_script-Riskiest :
      Riskiest (merge_script rt d sql statements).kind (script_parts rt d statements)
  unfolding merge_script
  merge_script-Riskiest = merge_infos-Riskiest d sql _ (script_parts rt d statements)

  -- Each flag of a script is set exactly when one of its statements sets it.
  pub merge_script-flags :
      let script = merge_script rt d sql statements in
      let parts = script_parts rt d statements in
      (script.is_drop ≡ any (λ p. p.is_drop) parts)
      × (script.is_truncate ≡ any (λ p. p.is_truncate) parts)
      × (script.touches_session ≡ any (λ p. p.touches_session) parts)
      × (script.controls_transaction ≡ any (λ p. p.controls_transaction) parts)
      × (script.switches_database ≡ any (λ p. p.switches_database) parts)
  unfolding merge_script
  merge_script-flags =
      let u =
        merge_infos-UnionOf d sql (tokens_or_none (lex_dialect rt d sql))
          (script_parts rt d statements) in
      (u.is_drop, u.is_truncate, u.touches_session, u.controls_transaction, u.switches_database)
