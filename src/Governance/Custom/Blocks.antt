-- ===== src/Governance/Custom/Blocks.antt =====
-- What the custom policies block.
use rowset_studio.Common.{
  ℕ, ◌≡◌, Bool, true, false, not, ◌&&◌, ◌⊎◌, Option, none, some, List, [], ◌∷◌, Bytes, any, arith,
  Option-cases, inl, inr,
}
use rowset_studio.SqlGuard.Types.{Runtime, Info}
use rowset_studio.Policy.{Decision, deny}
use rowset_studio.Governance.Custom.{
  CustomPolicy, CustomRules, applies, block_reason, row_limit_of, extend, custom_denial,
  apply_custom_policies, match_table,
}

abbrev pub is_some {ℓ} : {A : Type ℓ} → Option A → Bool
is_some none = false
is_some (some a) = true

-- The policy applies here, and a built-in kind blocks the statement.
abbrev pub blocks : Runtime → ℕ → Bytes → Bytes → Info → CustomPolicy → Bool
blocks rt minute connection_id role info item =
    applies rt connection_id role item && is_some (block_reason rt minute info item)

-- The rules that are registered turn no denial into something else.
abbrev pub Strict : CustomRules → Type 0
Strict rules =
    (kind : Bytes) (rule : CustomPolicy → Info → Bool → Decision → Option Decision)
    (item : CustomPolicy) (info : Info) (matches : Bool) (decision next : Decision)
    → rules kind ≡ some rule
    → rule item info matches decision ≡ some next
    → decision.effect ≡ deny
    → next.effect ≡ deny

module _ (rt : Runtime) (rules : CustomRules) (minute : ℕ) (connection_id role : Bytes)
    (info : Info) where
  extend-deny :
      (cleared : Bool) (item : CustomPolicy) (decision : Decision)
      → Strict rules
      → decision.effect ≡ deny
      → (extend rt rules cleared info item decision).effect ≡ deny
  unfolding extend
  extend-deny cleared item decision strict h = elim (Option-cases (rules item.kind)) [
    | inl n ↦ ground (arith, h, n)
    | inr (rule, s) ↦ elim (Option-cases (rule item info (match_table rt info item) decision)) [
      | inl n ↦ ground (arith, h, s, n)
      | inr (next, t) ↦ ground (
        arith,
        h,
        s,
        t,
        strict item.kind rule item info (match_table rt info item) decision next s t h,
      )
    ]
  ]

  -- A statement that is denied stays denied, and one that is not cleared is denied if some policy
  -- in force blocks it: as long as no registered rule lifts a denial.
  pub apply_custom_policies-deny :
      (cleared : Bool) (items : List CustomPolicy) (decision : Decision) (limit : ℕ)
      → Strict rules
      → ((not cleared && any (blocks rt minute connection_id role info) items) ≡ true)
        ⊎ (decision.effect ≡ deny)
      → (apply_custom_policies rt rules minute connection_id role info cleared items decision
          limit).0.effect
        ≡ deny
  unfolding apply_custom_policies custom_denial
  apply_custom_policies-deny cleared [] decision limit strict h = ground (arith, h)
  apply_custom_policies-deny cleared (item ∷ items) decision limit strict h = ground (
    arith,
    h,
    extend-deny cleared item decision strict,
    apply_custom_policies-deny cleared items decision limit strict,
    apply_custom_policies-deny cleared items (extend rt rules cleared info item decision)
        (row_limit_of info item limit) strict,
  )
