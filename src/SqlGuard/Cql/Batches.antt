-- ===== src/SqlGuard/Cql/Batches.antt =====
-- What a CQL batch that is accepted holds.
use rowset_studio.Common.{
  ◌≡◌, ◌↔◌, refl, ◌∙◌, sym, ap, inl, inr, Bool, true, not, ◌&&◌, ◌||◌, none, List, [], ◌∷◌, Bytes,
  arith, all, All, Bool-cases, Option-cases,
}
use rowset_studio.SqlGuard.Cache.{Cache, parse_dialect}
use rowset_studio.SqlGuard.Cache.Coherence.{CacheInv, parse_uncached, parse_dialect-coherent}
use rowset_studio.SqlGuard.Cql.{batch_kind, merge_child, children_loop, parse_children, batch_start}
use rowset_studio.SqlGuard.Types.{Runtime, generic, update, delete, kind_eq, Info, ok}

-- An update or a delete has a WHERE.
abbrev pub scoped : Info → Bool
scoped info = not ((kind_eq info.kind update || kind_eq info.kind delete) && not info.has_where)

has_where-merge_child :
    (result info : Info) → (merge_child result info).has_where ≡ (result.has_where && scoped info)
unfolding merge_child
has_where-merge_child result info = ground arith

module _ (rt : Runtime) where
  -- The child is read without an error, and as a statement that a batch may hold.
  abbrev pub Fits : Bytes → Type 0
  Fits child =
      ((parse_uncached rt generic child).1 ≡ none)
      × (batch_kind (parse_uncached rt generic child).0.kind ≡ true)

  children_loop-Fits :
      (raw : Bytes) (result : Info) (children : List Bytes) (cache : Cache)
      → CacheInv rt cache
      → (children_loop rt raw result children cache).0.1 ≡ none
      → All Fits children
        × ((children_loop rt raw result children cache).0.0.has_where
            ≡ (result.has_where && all (λ c. scoped (parse_uncached rt generic c).0) children))
  unfolding children_loop
  children_loop-Fits raw result [] cache v h = (tt, ground arith)
  children_loop-Fits raw result (child ∷ rest) cache v h =
      let parsed = parse_dialect rt generic child cache in
      let coherent = parse_dialect-coherent rt generic child cache v in
      let merged = merge_child result parsed.0.0 in
      elim (Option-cases parsed.0.1) [
        | inr (e, s) ↦ absurd (ground (arith, s, h))
        | inl n ↦ elim (Bool-cases (batch_kind parsed.0.0.kind)) [
          | inr f ↦ absurd (ground (arith, n, f, h))
          | inl t ↦
              let later =
                children_loop-Fits raw merged rest parsed.1 coherent.1 (ground (arith, n, t, h)) in
              (
                (
                  (
                    ap (λ a. a.1) (sym coherent.0) ∙ n,
                    ap (λ a. batch_kind a.0.kind) (sym coherent.0) ∙ t,
                  ),
                  later.0,
                ),
                ground (
                  arith,
                  n,
                  t,
                  later.1,
                  ap (λ a. scoped a.0) coherent.0,
                  has_where-merge_child result parsed.0.0,
                ),
              )
        ]
      ]

  children_loop-accepts :
      (raw : Bytes) (result : Info) (children : List Bytes) (cache : Cache)
      → CacheInv rt cache
      → All Fits children
      → (children_loop rt raw result children cache).0.1 ≡ none
  unfolding children_loop
  children_loop-accepts raw result [] cache v h = refl
  children_loop-accepts raw result (child ∷ rest) cache v h =
      let parsed = parse_dialect rt generic child cache in
      let coherent = parse_dialect-coherent rt generic child cache v in
      ground (
        arith,
        ap (λ a. a.1) coherent.0 ∙ h.0.0,
        ap (λ a. batch_kind a.0.kind) coherent.0 ∙ h.0.1,
        children_loop-accepts raw (merge_child result parsed.0.0) rest parsed.1 coherent.1 h.1,
      )

  pub parse_children-accepts_iff :
      (raw child : Bytes) (children : List Bytes) (cache : Cache)
      → CacheInv rt cache
      → ((parse_children rt raw (ok (child ∷ children)) cache).0.1 ≡ none)
        ↔ All Fits (child ∷ children)
  parse_children-accepts_iff raw child children cache v = (
    λ h. (children_loop-Fits raw (batch_start rt raw) (child ∷ children) cache v h).0,
    λ h. children_loop-accepts raw (batch_start rt raw) (child ∷ children) cache v h,
  )

  -- With a right cache a batch that is accepted has a WHERE exactly when every update and every
  -- delete in it has one.
  pub has_where-parse_children :
      (raw child : Bytes) (children : List Bytes) (cache : Cache)
      → CacheInv rt cache
      → (parse_children rt raw (ok (child ∷ children)) cache).0.1 ≡ none
      → (parse_children rt raw (ok (child ∷ children)) cache).0.0.has_where
        ≡ all (λ c. scoped (parse_uncached rt generic c).0) (child ∷ children)
  has_where-parse_children raw child children cache v h =
      (children_loop-Fits raw (batch_start rt raw) (child ∷ children) cache v h).1
