-- ===== src/SqlGuard/Script/Unscoped.antt =====
-- A write without a WHERE shows in the record of its script, whatever stands around it.
use rowset_studio.Common.{
  ℕ, ◌+◌, ◌≡◌, refl, ◌⊎◌, inl, inr, ◌∙◌, ap, subst, Bool, true, false, not, ◌&&◌, ◌||◌, List, [],
  ◌∷◌, ◌++◌, Bytes, any, Member, arith, ◌==◌, if◌then◌else◌, Bool-cases,
}
use rowset_studio.SqlGuard.Script.Kinds.{KindFrom, merge_parts-KindFrom, unscoped-merge_parts}
use rowset_studio.SqlGuard.Script.{
  deciding_where, scopable, add_unscoped, unscoped_loop, script_start, scoped_script, merge_infos,
  merge_script, script_parts,
}
use rowset_studio.SqlGuard.Types.{
  Runtime, Dialect, Kind, update, delete, session, kind_eq, kind_eq_iff, Token, Info, contains_kind,
  lacks_where,
}

-- The part has this kind and no WHERE.
abbrev pub lacks : Kind → Info → Bool
lacks k p = kind_eq p.kind k && not p.has_where

contains_kind-concat :
    (k j : Kind) (ks : List Kind)
    → contains_kind k (ks ++ j ∷ []) ≡ (contains_kind k ks || kind_eq j k)
unfolding contains_kind
contains_kind-concat k j [] = ground arith
contains_kind-concat k j (i ∷ ks) = ground (arith, contains_kind-concat k j ks)

lacks_where-concat :
    (m : Info) (j k : Kind)
    → lacks_where (record m { unscoped = m.unscoped ++ j ∷ [] }) k
      ≡ (lacks_where m k || kind_eq j k)
unfolding lacks_where
lacks_where-concat m j k = ground (arith, contains_kind-concat k j m.unscoped)

lacks_where-add_unscoped :
    (m p : Info) (k : Kind)
    → lacks_where (add_unscoped m p) k ≡ (lacks_where m k || (lacks k p && scopable p))
unfolding add_unscoped
lacks_where-add_unscoped m p k = ground (arith, kind_eq_iff p.kind k, lacks_where-concat m p.kind k)

lacks_where-unscoped_loop :
    (m : Info) (ps : List Info) (k : Kind)
    → lacks_where (unscoped_loop m ps) k
      ≡ (lacks_where m k || any (λ p. lacks k p && scopable p) ps)
unfolding unscoped_loop
lacks_where-unscoped_loop m [] k = ground arith
lacks_where-unscoped_loop m (p ∷ ps) k =
    ground
      (arith, lacks_where-add_unscoped m p k, lacks_where-unscoped_loop (add_unscoped m p) ps k)

deciding_where_lem :
    (k : Kind) (w : Bool) (n : ℕ) (ps : List Info)
    → deciding_where k w n ps
      ≡ (w && not (any (lacks k) ps) && (not (n == 0) || any (λ p. kind_eq p.kind k) ps))
unfolding deciding_where
deciding_where_lem k w n [] = ground arith
deciding_where_lem k w n (p ∷ ps) = ground (
  arith,
  deciding_where_lem k (if kind_eq p.kind k && not p.has_where then false else w)
      (if kind_eq p.kind k then n + 1 else n) ps,
)

-- A write can be scoped.
lacks-scopable :
    (k : Kind) (p : Info) → (k ≡ update) ⊎ (k ≡ delete) → (lacks k p && scopable p) ≡ lacks k p
unfolding scopable
lacks-scopable k p h = ground (arith, kind_eq_iff p.kind k)

any-lacks-scopable :
    (k : Kind) (ps : List Info)
    → (k ≡ update) ⊎ (k ≡ delete)
    → any (λ p. lacks k p && scopable p) ps ≡ any (lacks k) ps
any-lacks-scopable k [] h = refl
any-lacks-scopable k (p ∷ ps) h = ground (arith, lacks-scopable k p h, any-lacks-scopable k ps h)

any-kind_eq :
    (k : Kind) (ps : List Info) (p : Info)
    → Member p ps
    → k ≡ p.kind
    → any (λ q. kind_eq q.kind k) ps ≡ true
any-kind_eq k [] p h e = elim h [ ]
any-kind_eq k (q ∷ ps) p (inl m) e =
    ground (arith, kind_eq_iff q.kind k, ap (λ (r : Info). r.kind) m)
any-kind_eq k (q ∷ ps) p (inr m) e = ground (arith, any-kind_eq k ps p m e)

-- The kind of a script, where it is that of a write, is the kind of a part.
any-KindFrom :
    (k : Kind) (ps : List Info)
    → KindFrom session k ps
    → (k ≡ update) ⊎ (k ≡ delete)
    → any (λ q. kind_eq q.kind k) ps ≡ true
any-KindFrom k ps (inl e) h = ground arith
any-KindFrom k ps (inr (p, m, e)) h = any-kind_eq k ps p m e

-- Of a write, the record before the last loop lacks a WHERE only if a part does.
lacks_where-decided :
    (m : Info) (ps : List Info) (k : Kind)
    → m.unscoped ≡ []
    → KindFrom session m.kind ps
    → m.has_where ≡ deciding_where m.kind true 0 ps
    → (k ≡ update) ⊎ (k ≡ delete)
    → (lacks_where m k || any (lacks k) ps) ≡ any (lacks k) ps
unfolding lacks_where contains_kind
lacks_where-decided m ps k u f w h = elim (Bool-cases (kind_eq m.kind k)) [
  | inl e ↦
      let same = (kind_eq_iff m.kind k).0 e in
      let from = subst (λ j. KindFrom session j ps) same f in
      let decided =
        w ∙ ap (λ j. deciding_where j true 0 ps) same ∙ deciding_where_lem k true 0 ps in
      ground (arith, any-KindFrom k ps from h, decided, u)
  | inr e ↦ ground (arith, u)
]

module _ (d : Dialect) (sql : Bytes) (tokens : List Token) where
  lacks_where-scoped_script :
      (ps : List Info) (k : Kind)
      → (k ≡ update) ⊎ (k ≡ delete)
      → (lacks_where (scoped_script d sql tokens ps) k || any (lacks k) ps) ≡ any (lacks k) ps
  unfolding scoped_script
  lacks_where-scoped_script ps k h =
      lacks_where-decided (scoped_script d sql tokens ps) ps k
        (unscoped-merge_parts (script_start d sql) ps)
        (merge_parts-KindFrom (script_start d sql) ps) refl h

  lacks_where-merge_infos :
      (ps : List Info) (k : Kind)
      → (k ≡ update) ⊎ (k ≡ delete)
      → lacks_where (merge_infos d sql tokens ps) k ≡ any (lacks k) ps
  lacks_where-merge_infos [] k h =
      unfold merge_infos lacks_where contains_kind kind_eq in ground arith
  lacks_where-merge_infos (p ∷ ps) k h =
      let scoped = scoped_script d sql tokens (p ∷ ps) in
      unfold merge_infos lacks_where in
      lacks_where-unscoped_loop scoped (p ∷ ps) k
      ∙ ap (λ b. lacks_where scoped k || b) (any-lacks-scopable k (p ∷ ps) h)
      ∙ lacks_where-scoped_script (p ∷ ps) k h

-- A script lacks a WHERE for its updates, or for its deletes, exactly when one of its statements
-- is an update, or a delete, without one.
pub lacks_where-merge_script :
    (rt : Runtime) (d : Dialect) (sql : Bytes) (statements : List Bytes) (k : Kind)
    → (k ≡ update) ⊎ (k ≡ delete)
    → lacks_where (merge_script rt d sql statements) k
      ≡ any (λ p. kind_eq p.kind k && not p.has_where) (script_parts rt d statements)
unfolding merge_script
lacks_where-merge_script rt d sql statements k h =
    lacks_where-merge_infos d sql _ (script_parts rt d statements) k h
