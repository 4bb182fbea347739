-- ===== src/Audit/Tampering.antt =====
-- What an intact chain commits to, with a digest that does not collide.
use rowset_studio.Common.{
  ℤ, is_number, ◌≡◌, ◌∙◌, refl, sym, ap₂, subst, Bool, true, false, not, List, [], ◌∷◌, ◌++◌,
  Option, none, Bytes, bytes_eq_iff, codes, join, arith, length, all, map, and-parts, Bool-cases,
  inl, inr, ◌==◌,
}
use rowset_studio.Audit.Entry.{
  AuditLog, Row, text, item_of, hashed_values, audit_hash, verify_prepared_audit,
}
use rowset_studio.Audit.Database.{of_org, last_hash}
use rowset_studio.Audit.Verify.{follows, verify_audit_chain}
use rowset_studio.Audit.Chains.{intact, reported, verify_audit_chain-reported}

-- The text that the hash of a row is taken of: its previous hash and the columns, joined.
unfoldable pub hashed_text : Bool → Row → Bytes
hashed_text reference_column row =
    join (codes "|")
      (hashed_values row.hash_version (text row.prev_hash) (item_of reference_column row))

-- No byte is the separator.
abbrev pub Unbarred : Bytes → Type 0
Unbarred s = all (λ c. not (c == 124)) s ≡ true

before_bar : (a b x y : Bytes) → Unbarred a → Unbarred b → a ++ (124 ∷ x) ≡ b ++ (124 ∷ y) → a ≡ b
before_bar [] [] x y p q e = refl
before_bar [] (d ∷ b) x y p q e = ground (arith, p, q, e)
before_bar (c ∷ a) [] x y p q e = ground (arith, p, q, e)
before_bar (c ∷ a) (d ∷ b) x y p q e = ground (arith, p, q, e, before_bar a b x y)

split_at_bar :
    (version : ℤ) (previous : Bytes) (item : AuditLog)
    → (rest : Bytes) × (join (codes "|") (hashed_values version previous item)
        ≡ previous ++ (124 ∷ rest))
unfolding join hashed_values
split_at_bar version previous item = elim (Bool-cases (is_number version 2)) [
  | inl e ↦ rw e (_, refl)
  | inr e ↦ rw e (_, refl)
]

module _ (digest : Bytes → Bytes) (reference_column : Bool) where
  pub follows-parts :
      (previous : Bytes) (row : Row)
      → follows digest reference_column previous row ≡ true
      → (text row.prev_hash ≡ previous)
        × (text row.entry_hash ≡ digest (hashed_text reference_column row))
  unfolding follows verify_prepared_audit audit_hash hashed_text
  follows-parts previous row h = ground (
    arith,
    h,
    bytes_eq_iff (text row.prev_hash) previous,
    bytes_eq_iff (digest (hashed_text reference_column row)) (text row.entry_hash),
  )

module _ (digest : Bytes → Bytes) (reference_column : Bool)
    (collision_free : (a b : Bytes) → digest a ≡ digest b → a ≡ b)
    (unbarred : (a : Bytes) → Unbarred (digest a)) where
  same_previous :
      (r s : Row)
      → Unbarred (text r.prev_hash)
      → Unbarred (text s.prev_hash)
      → hashed_text reference_column r ≡ hashed_text reference_column s
      → text r.prev_hash ≡ text s.prev_hash
  unfolding hashed_text
  same_previous r s a b e =
      let left = split_at_bar r.hash_version (text r.prev_hash) (item_of reference_column r) in
      let right = split_at_bar s.hash_version (text s.prev_hash) (item_of reference_column s) in
      before_bar (text r.prev_hash) (text s.prev_hash) left.0 right.0 a b (sym left.1 ∙ e ∙ right.1)

  same_texts :
      (p q : Option Bytes) (rows later : List Row)
      → Unbarred (text p)
      → Unbarred (text q)
      → intact digest reference_column (text p) rows ≡ true
      → intact digest reference_column (text q) later ≡ true
      → length rows ≡ length later
      → text (last_hash p rows) ≡ text (last_hash q later)
      → (text p ≡ text q)
        × (map (hashed_text reference_column) rows ≡ map (hashed_text reference_column) later)
  unfolding last_hash
  same_texts p q [] [] a b h k l e = (e, refl)
  same_texts p q [] (s ∷ later) a b h k l e = absurd (omega arith)
  same_texts p q (r ∷ rows) [] a b h k l e = absurd (omega arith)
  same_texts p q (r ∷ rows) (s ∷ later) a b h k l e =
      let hs =
        and-parts (follows digest reference_column (text p) r)
          (intact digest reference_column (text r.entry_hash) rows) h in
      let ks =
        and-parts (follows digest reference_column (text q) s)
          (intact digest reference_column (text s.entry_hash) later) k in
      let left = follows-parts digest reference_column (text p) r hs.0 in
      let right = follows-parts digest reference_column (text q) s ks.0 in
      let behind =
        same_texts r.entry_hash s.entry_hash rows later
          (subst Unbarred (sym left.1) (unbarred (hashed_text reference_column r)))
          (subst Unbarred (sym right.1) (unbarred (hashed_text reference_column s))) hs.1 ks.1
          (omega arith) e in
      let same =
        collision_free (hashed_text reference_column r) (hashed_text reference_column s)
          (sym left.1 ∙ behind.0 ∙ right.1) in
      (
        sym left.0
            ∙ same_previous r s (subst Unbarred (sym left.0) a) (subst Unbarred (sym right.0) b)
                same
            ∙ right.0,
        ap₂ (λ t ts. t ∷ ts) same behind.1,
      )

  -- Two scans in which `VerifyAuditChain` finds no broken chain for an organization, with the same
  -- number of its rows and the same hash in its last one, agree in the text that is hashed of every
  -- one of its rows: with a digest that does not collide and never yields the separator, no hashed
  -- text can change and the last hash stay.
  pub same_head-hashed_text :
      (before after : List Row) (org : Bytes)
      → reported org (verify_audit_chain digest reference_column before).breaks ≡ false
      → reported org (verify_audit_chain digest reference_column after).breaks ≡ false
      → length (of_org org before) ≡ length (of_org org after)
      → text (last_hash none (of_org org before)) ≡ text (last_hash none (of_org org after))
      → map (hashed_text reference_column) (of_org org before)
        ≡ map (hashed_text reference_column) (of_org org after)
  unfolding text
  same_head-hashed_text before after org h k l e =
      (same_texts none none (of_org org before) (of_org org after) refl refl
        (ground (arith, h, (verify_audit_chain-reported digest reference_column before org).0))
        (ground (arith, k, (verify_audit_chain-reported digest reference_column after org).0)) l
        e).1
