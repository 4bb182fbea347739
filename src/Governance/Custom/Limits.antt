-- ===== src/Governance/Custom/Limits.antt =====
-- The limit of rows behind the custom policies.
use rowset_studio.Common.{
  ℕ, ◌≤◌, ◌<◌, ◌≡◌, refl, sym, subst, Bool, true, false, not, ◌&&◌, ◌⊎◌, List, [], ◌∷◌, Bytes, any,
  All, All-Member, Member, arith, Bool-cases, inl, inr, ℤ, pos, negsuc, atoi, trim_space, ltb→lt,
  lt→ltb, ==_iff,
}
use rowset_studio.SqlGuard.Types.{Runtime, Info}
use rowset_studio.Policy.{Decision}
use rowset_studio.Governance.Custom.{
  CustomPolicy, CustomRules, applies, tighten, row_limit_of, extend, apply_custom_policies,
}
use rowset_studio.Governance.Custom.Blocks.{blocks}

-- The later limit is the earlier one, or a limit where there was none or a higher one.
abbrev pub Tightens : ℕ → ℕ → Type 0
Tightens limit later = (later ≡ limit) ⊎ ((0 < later) × ((limit ≡ 0) ⊎ (later < limit)))

tighten-Tightens : (parsed : ℤ × Bool) (limit : ℕ) → Tightens limit (tighten parsed limit)
unfolding tighten
tighten-Tightens (pos n, true) limit = ground (arith, ltb→lt 0 n, ltb→lt n limit, ==_iff limit 0)
tighten-Tightens (pos n, false) limit = ground arith
tighten-Tightens (negsuc n, b) limit = ground arith

row_limit_of-Tightens :
    (info : Info) (item : CustomPolicy) (limit : ℕ) → Tightens limit (row_limit_of info item limit)
unfolding row_limit_of
row_limit_of-Tightens info item limit =
    ground (arith, tighten-Tightens (atoi (trim_space item.config)) limit)

Tightens-trans : (a b c : ℕ) → Tightens a b → Tightens b c → Tightens a c
Tightens-trans a b c h k = ground (arith, h, k)

-- The number of rows that the policy allows, for a SELECT.
abbrev pub cap : Info → CustomPolicy → ℕ
cap info item = row_limit_of info item 0

-- The limit is at most each positive number of rows that a policy in force allows.
abbrev pub Capped : Runtime → Bytes → Bytes → Info → ℕ → List CustomPolicy → Type 0
Capped rt connection_id role info limit items =
    All
      (λ item.
        (applies rt connection_id role item ≡ true)
        → 0 < cap info item
        → (0 < limit) × (limit ≤ cap info item))
      items

tighten-cap :
    (parsed : ℤ × Bool) (limit : ℕ)
    → 0 < tighten parsed 0
    → (0 < tighten parsed limit) × (tighten parsed limit ≤ tighten parsed 0)
unfolding tighten
tighten-cap (pos n, true) limit h =
    ground (arith, h, ltb→lt 0 n, ltb→lt n limit, lt→ltb n limit, ==_iff limit 0)
tighten-cap (pos n, false) limit h = ground (arith, h)
tighten-cap (negsuc n, b) limit h = ground (arith, h)

row_limit_of-cap :
    (info : Info) (item : CustomPolicy) (limit : ℕ)
    → 0 < row_limit_of info item 0
    → (0 < row_limit_of info item limit) × (row_limit_of info item limit ≤ row_limit_of info item 0)
unfolding row_limit_of
row_limit_of-cap info item limit h =
    ground (arith, h, tighten-cap (atoi (trim_space item.config)) limit)

Capped-Tightens :
    (rt : Runtime) (connection_id role : Bytes) (info : Info) (item : CustomPolicy)
    (limit later : ℕ)
    → Tightens (row_limit_of info item limit) later
    → 0 < row_limit_of info item 0
    → (0 < later) × (later ≤ row_limit_of info item 0)
Capped-Tightens rt connection_id role info item limit later t h =
    ground (arith, t, row_limit_of-cap info item limit h)

module _ (rt : Runtime) (rules : CustomRules) (minute : ℕ) (connection_id role : Bytes)
    (info : Info) where
  -- The custom policies only tighten the limit of rows: what was limited stays limited, to as many
  -- rows or to fewer.
  pub apply_custom_policies-Tightens :
      (cleared : Bool) (items : List CustomPolicy) (decision : Decision) (limit : ℕ)
      → Tightens limit
          (apply_custom_policies rt rules minute connection_id role info cleared items decision
            limit).1
  unfolding apply_custom_policies
  apply_custom_policies-Tightens cleared [] decision limit = inl refl
  apply_custom_policies-Tightens cleared (item ∷ items) decision limit =
      let next = row_limit_of info item limit in
      let extended = extend rt rules cleared info item decision in
      ground (
        arith,
        apply_custom_policies-Tightens cleared items decision limit,
        Tightens-trans limit next
            (apply_custom_policies rt rules minute connection_id role info cleared items extended
              next).1
            (row_limit_of-Tightens info item limit)
            (apply_custom_policies-Tightens cleared items extended next),
      )

  -- The limit behind a list of policies.
  abbrev limit_after : Bool → List CustomPolicy → Decision → ℕ → ℕ
  limit_after cleared items decision limit =
      (apply_custom_policies rt rules minute connection_id role info cleared items decision limit).1

  limit_after-skips :
      (cleared : Bool) (item : CustomPolicy) (items : List CustomPolicy) (decision : Decision)
      (limit : ℕ)
      → applies rt connection_id role item ≡ false
      → limit_after cleared (item ∷ items) decision limit ≡ limit_after cleared items decision limit
  unfolding apply_custom_policies
  limit_after-skips cleared item items decision limit n = ground (arith, n)

  limit_after-passes :
      (cleared : Bool) (item : CustomPolicy) (items : List CustomPolicy) (decision : Decision)
      (limit : ℕ)
      → applies rt connection_id role item ≡ true
      → (not cleared && blocks rt minute connection_id role info item) ≡ false
      → limit_after cleared (item ∷ items) decision limit
        ≡ limit_after cleared items
            (extend rt rules cleared info item decision)
            (row_limit_of info item limit)
  unfolding apply_custom_policies
  limit_after-passes cleared item items decision limit y n = ground (arith, y, n)

  pub apply_custom_policies-Capped :
      (cleared : Bool) (items : List CustomPolicy) (decision : Decision) (limit : ℕ)
      → (not cleared && any (blocks rt minute connection_id role info) items) ≡ false
      → Capped rt connection_id role info
          (apply_custom_policies rt rules minute connection_id role info cleared items decision
            limit).1
          items
  apply_custom_policies-Capped cleared [] decision limit h = tt
  apply_custom_policies-Capped cleared (item ∷ items) decision limit h =
      let next = row_limit_of info item limit in
      let extended = extend rt rules cleared info item decision in
      let capped = (λ (l : ℕ). Capped rt connection_id role info l (item ∷ items)) in
      elim (Bool-cases (applies rt connection_id role item)) [
        | inr n ↦ subst capped (sym (limit_after-skips cleared item items decision limit n)) (
          λ y. absurd (ground (arith, n, y)),
          apply_custom_policies-Capped cleared items decision limit (ground (arith, h)),
        )
        | inl y ↦
            subst capped
              (sym (limit_after-passes cleared item items decision limit y (ground (arith, h, y))))
              (
                λ z positive.
                    Capped-Tightens rt connection_id role info item limit
                      (limit_after cleared items extended next)
                      (apply_custom_policies-Tightens cleared items extended next) positive,
                apply_custom_policies-Capped cleared items extended next (ground (arith, h)),
              )
      ]

  -- Behind the custom policies, a SELECT that none of them blocks is limited to at most the positive
  -- number of rows that any custom policy in force allows.
  pub apply_custom_policies-cap :
      (cleared : Bool) (items : List CustomPolicy) (decision : Decision) (limit : ℕ)
      (item : CustomPolicy)
      → (not cleared && any (blocks rt minute connection_id role info) items) ≡ false
      → Member item items
      → applies rt connection_id role item ≡ true
      → 0 < cap info item
      → (let later =
            (apply_custom_policies rt rules minute connection_id role info cleared items decision
              limit).1 in
          (0 < later) × (later ≤ cap info item))
  apply_custom_policies-cap cleared items decision limit item h m y positive =
      All-Member
        (λ i.
          (applies rt connection_id role i ≡ true)
          → 0 < cap info i
          → (let later = limit_after cleared items decision limit in
              (0 < later) × (later ≤ cap info i)))
        items (apply_custom_policies-Capped cleared items decision limit h) m y positive
