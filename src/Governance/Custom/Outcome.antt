-- ===== src/Governance/Custom/Outcome.antt =====
-- What `applyCustomPolicies` of rowset-core/internal/api/query.go decides where no kind is registered.
use rowset_studio.Common.{
  ℕ, ◌≡◌, refl, subst, false, ◌⊎◌, inl, inr, none, List, [], ◌∷◌, ◌++◌, Bytes, codes, Member, arith,
  Bool-cases, Option-cases,
}
use rowset_studio.SqlGuard.Types.{Runtime, Info}
use rowset_studio.Policy.{Decision, deny}
use rowset_studio.Governance.Custom.{
  CustomPolicy, CustomRules, case_of, applies, block_reason, row_limit_of, extend, custom_denial,
  apply_custom_policies,
}
use rowset_studio.Governance.Custom.Blocking.{
  InForce, IsBlocking, applies-InForce, InForce-applies, block_reason-IsBlocking,
  IsBlocking-block_reason,
}

module _ (rt : Runtime) (rules : CustomRules) (minute : ℕ) (connection_id role : Bytes)
    (info : Info) where
  -- A policy of the list that is in force here and blocks the statement.
  abbrev pub Blocks : CustomPolicy → Type 0
  Blocks item = InForce rt connection_id role item × IsBlocking rt minute info item

  -- A decision behind the custom policies: the denial of a policy that blocks, or the one in front of
  -- them, which none blocks.
  abbrev pub Outcome : List CustomPolicy → Decision → Decision → Type 0
  Outcome items decision result =
      ((item : CustomPolicy) × Member item items
        × Blocks item
        × (result.effect ≡ deny)
        × (result.policy_id ≡ codes "custom:" ++ item.id))
      ⊎ ((result ≡ decision) × ((item : CustomPolicy) → Member item items → Blocks item → ⊥))

  Outcome-cons :
      (item : CustomPolicy) (items : List CustomPolicy) (decision result : Decision)
      → (Blocks item → ⊥)
      → Outcome items decision result
      → Outcome (item ∷ items) decision result
  Outcome-cons item items decision result n (inl (other, m, b, d, p)) = inl (other, inr m, b, d, p)
  Outcome-cons item items decision result n (inr (same, none_blocks)) =
      inr
        (same, λ other m b. elim m [ inl e ↦ n (subst Blocks e b) | inr k ↦ none_blocks other k b ])

  extend-plain :
      (item : CustomPolicy) (decision : Decision)
      → rules item.kind ≡ none
      → extend rt rules false info item decision ≡ decision
  unfolding extend
  extend-plain item decision h = ground (arith, h)

  -- Where no kind is registered and the statement is not cleared: if a policy of the list is on, is for
  -- this connection and this role, and blocks the statement by its table, its schema, its kind, or the
  -- hour of a write, then the decision is the denial of such a policy; if there is none, the whole
  -- decision is what it was.
  pub apply_custom_policies-Outcome :
      (items : List CustomPolicy) (decision : Decision) (limit : ℕ)
      → ((kind : Bytes) → rules kind ≡ none)
      → Outcome items decision
          (apply_custom_policies rt rules minute connection_id role info false items decision
            limit).0
  unfolding apply_custom_policies custom_denial
  apply_custom_policies-Outcome [] decision limit plain = inr (refl, λ item m b. elim m [ ])
  apply_custom_policies-Outcome (item ∷ items) decision limit plain =
      elim (Bool-cases (applies rt connection_id role item)) [
        | inr n ↦
            rw (apply_custom_policies, n)
              (Outcome-cons item items decision
                (apply_custom_policies rt rules minute connection_id role info false items decision
                  limit).0
                (λ b.
                  let y = InForce-applies rt connection_id role item b.0 in ground (arith, n, y))
                (apply_custom_policies-Outcome items decision limit plain))
        | inl y ↦ elim (Option-cases (block_reason rt minute info item)) [
          | inr (reason, r) ↦
              rw (apply_custom_policies, y, r)
                (inl (
                  item,
                  inl refl,
                  (
                    applies-InForce rt connection_id role item y,
                    block_reason-IsBlocking rt minute info item reason (case_of item.kind) refl r,
                  ),
                  refl,
                  refl,
                ))
          | inl n ↦
              rw (apply_custom_policies, y, n, extend-plain item decision (plain item.kind))
                (Outcome-cons item items decision
                  (apply_custom_policies rt rules minute connection_id role info false items
                    decision (row_limit_of info item limit)).0
                  (λ b. IsBlocking-block_reason rt minute info item b.1 n)
                  (apply_custom_policies-Outcome items decision (row_limit_of info item limit)
                    plain))
        ]
      ]
