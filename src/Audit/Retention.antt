-- ===== src/Audit/Retention.antt =====
-- What `VerifyAuditChain` says of a chain whose oldest rows are gone, as PurgeActivity of
-- rowset-core/internal/store/store.go leaves it.
use rowset_studio.Common.{
  ◌≡◌, ◌≢◌, refl, sym, ◌∙◌, ap, subst, Bool, true, false, not, List, [], ◌∷◌, ◌++◌, Bytes, arith,
  and-parts, Bool-cases, inl, inr,
}
use rowset_studio.Audit.Entry.{Row, text}
use rowset_studio.Audit.Database.{of_org}
use rowset_studio.Audit.Verify.{follows, verify_audit_chain}
use rowset_studio.Audit.Chains.{intact, reported, verify_audit_chain-reported}
use rowset_studio.Audit.Tampering.{hashed_text, follows-parts}

module _ (digest : Bytes → Bytes) (reference_column : Bool) where
  -- The hash is one that the digest yields.
  abbrev Digested : Bytes → Type 0
  Digested hash = (t : Bytes) × (hash ≡ digest t)

  chain_head :
      (previous : Bytes) (gone kept : List Row) (k : Row)
      → Digested previous
      → intact digest reference_column previous (gone ++ (k ∷ kept)) ≡ true
      → Digested (text k.prev_hash)
  chain_head previous [] kept k p h =
      let parts =
        and-parts (follows digest reference_column previous k)
          (intact digest reference_column (text k.entry_hash) kept) h in
      (p.0, (follows-parts digest reference_column previous k parts.0).0 ∙ p.1)
  chain_head previous (g ∷ gone) kept k p h =
      let parts =
        and-parts (follows digest reference_column previous g)
          (intact digest reference_column (text g.entry_hash) (gone ++ (k ∷ kept))) h in
      chain_head (text g.entry_hash) gone kept k
        (
          hashed_text reference_column g,
          (follows-parts digest reference_column previous g parts.0).1,
        )
        parts.1

  unlinked :
      (k : Row) (kept : List Row)
      → text k.prev_hash ≢ []
      → intact digest reference_column [] (k ∷ kept) ≡ false
  unlinked k kept n = elim (Bool-cases (follows digest reference_column [] k)) [
    | inl f ↦ absurd (n (follows-parts digest reference_column [] k f).0)
    | inr f ↦ rw f refl
  ]

  -- If the rows of an organization are an intact chain, and the digest never yields the empty text,
  -- `VerifyAuditChain` reports that organization once its oldest rows are deleted and some remain.
  pub purged-reported :
      (before after : List Row) (org : Bytes) (oldest : Row) (gone : List Row) (k : Row)
      (kept : List Row)
      → ((a : Bytes) → digest a ≢ [])
      → reported org (verify_audit_chain digest reference_column before).breaks ≡ false
      → of_org org before ≡ (oldest ∷ gone) ++ (k ∷ kept)
      → of_org org after ≡ k ∷ kept
      → reported org (verify_audit_chain digest reference_column after).breaks ≡ true
  purged-reported before after org oldest gone k kept nonempty h was is =
      let sound : intact digest reference_column [] (of_org org before) ≡ true =
        ground (arith, h, (verify_audit_chain-reported digest reference_column before org).0) in
      let whole = subst (λ rows. intact digest reference_column [] rows ≡ true) was sound in
      let parts =
        and-parts (follows digest reference_column [] oldest)
          (intact digest reference_column (text oldest.entry_hash) (gone ++ (k ∷ kept))) whole in
      let head =
        chain_head (text oldest.entry_hash) gone kept k
          (
            hashed_text reference_column oldest,
            (follows-parts digest reference_column [] oldest parts.0).1,
          )
          parts.1 in
      (verify_audit_chain-reported digest reference_column after org).0
      ∙ ap (λ rows. not (intact digest reference_column [] rows)) is
      ∙ ap not (unlinked k kept (λ e. nonempty head.0 (sym head.1 ∙ e)))
