-- ===== src/Governance/Verdict/Guarded.antt =====
-- An allowed statement has passed the guardrails and the custom policies.
use rowset_studio.Common.{
  none, some, Option, ℕ, ◌≡◌, ◌≢◌, refl, subst, Bool, true, false, ◌||◌, ◌⊎◌, inl, inr, some, List,
  any, arith, Bool-cases, Option-cases,
}
use rowset_studio.SqlGuard.Types.{Info, is_write, other, unknown}
use rowset_studio.Policy.{Decision, Effect, allow, deny, evaluate}
use rowset_studio.Policy.Guardrails.{blocked, effect-evaluate, read_only-evaluate}
use rowset_studio.Access.{Identity, Connection, AccessRole, is_admin, role_of}
use rowset_studio.Governance.Overrides.{Resolved}
use rowset_studio.Governance.Custom.{CustomPolicy}
use rowset_studio.Governance.Custom.Blocks.{blocks, Strict, apply_custom_policies-deny}
use rowset_studio.Governance.Verdict.{
  Workspace, input_for, resolved_for, decision_of, decide, evaluate_statement,
}

allow_or_deny : (e : Effect) → (e ≡ allow) ⊎ (e ≡ deny)
allow_or_deny allow = inl refl
allow_or_deny deny = inr refl

module _ (w : Workspace) (strict : Strict w.custom_rules) where
  -- The guardrails allow what the verdict allows.
  decide-evaluate :
      (cleared exempt : Bool) (identity : Identity) (role : AccessRole) (connection : Connection)
      (info : Info) (resolved : Resolved) (d : Decision) (limit : ℕ)
      → decide w cleared exempt identity role connection info resolved ≡ some (d, limit)
      → d.effect ≡ allow
      → (evaluate w.rules (input_for cleared role connection info resolved)).effect ≡ allow
  unfolding decide
  decide-evaluate cleared exempt identity role connection info resolved d limit h a =
      let decision = evaluate w.rules (input_for cleared role connection info resolved) in
      elim (allow_or_deny decision.effect) [
        | inl e ↦ e
        | inr e ↦ elim (Option-cases w.custom_policies) [
          | inl n ↦ absurd (ground (arith, h, a, e, n))
          | inr (items, s) ↦ absurd (
              ground (
                arith,
                h,
                a,
                e,
                s,
                apply_custom_policies-deny w.runtime w.custom_rules w.minute connection.id
                    identity.role info cleared items decision resolved.row_limit strict (inr e),
              ))
        ]
      ]

  -- The custom policies that the caller is not exempt from block nothing that is allowed.
  decide-unblocked :
      (identity : Identity) (role : AccessRole) (connection : Connection) (info : Info)
      (resolved : Resolved) (d : Decision) (limit : ℕ)
      → decide w false false identity role connection info resolved ≡ some (d, limit)
      → d.effect ≡ allow
      → (items : List CustomPolicy) × (w.custom_policies ≡ some items)
        × (any (blocks w.runtime w.minute connection.id identity.role info) items ≡ false)
  unfolding decide
  decide-unblocked identity role connection info resolved d limit h a =
      let decision = evaluate w.rules (input_for false role connection info resolved) in
      elim (Option-cases w.custom_policies) [
        | inl n ↦ absurd (ground (arith, h, n))
        | inr (items, s) ↦
            elim (Bool-cases
              (any (blocks w.runtime w.minute connection.id identity.role info) items)) [
                | inr f ↦ (items, s, f)
                | inl t ↦ absurd (
                    ground (
                      arith,
                      h,
                      a,
                      s,
                      apply_custom_policies-deny w.runtime w.custom_rules w.minute connection.id
                          identity.role info false items decision resolved.row_limit strict (inl t),
                    ))
              ]
      ]

  decided :
      (o : Option (Decision × ℕ)) (d : Decision)
      → decision_of o ≡ some d
      → (limit : ℕ) × (o ≡ some (d, limit))
  decided none d h = absurd (ground (arith, h))
  decided (some (e, limit)) d h = (limit, ground (arith, h))

  evaluate_statement-decide :
      (identity : Identity) (connection : Connection) (info : Info) (d : Decision)
      → evaluate_statement w identity connection info ≡ some d
      → (role : AccessRole) × (resolved : Resolved) × (role_of w.access identity.user_id
          ≡ some role)
        × (resolved_for w identity connection ≡ some resolved)
        × ((limit : ℕ) × (decide w false (is_admin identity) identity role connection info resolved
              ≡ some (d, limit)))
  unfolding evaluate_statement
  evaluate_statement-decide identity connection info d h =
      elim (Option-cases (role_of w.access identity.user_id)) [
        | inl n ↦ absurd (ground (arith, h, n))
        | inr (role, s) ↦ elim (Option-cases (resolved_for w identity connection)) [
          | inl n ↦ absurd (ground (arith, h, s, n))
          | inr (resolved, t) ↦ (
            role,
            resolved,
            s,
            t,
            decided (decide w false (is_admin identity) identity role connection info resolved) d
                (ground (arith, h, s, t)),
          )
        ]
      ]

  -- A statement that `EvaluateStatement` allows has passed the built-in guardrails under the policies
  -- in force, and, unless the caller is an administrator, no custom policy in force blocks it: as
  -- long as no registered kind of policy lifts a denial.
  pub evaluate_statement-allow :
      (identity : Identity) (connection : Connection) (info : Info) (d : Decision)
      → evaluate_statement w identity connection info ≡ some d
      → d.effect ≡ allow
      → (role : AccessRole) × (resolved : Resolved) × (role_of w.access identity.user_id
          ≡ some role)
        × (resolved_for w identity connection ≡ some resolved)
        × (blocked (input_for false role connection info resolved) ≡ false)
        × ((is_admin identity ≡ true)
            ⊎ ((items : List CustomPolicy) × (w.custom_policies ≡ some items)
                × (any (blocks w.runtime w.minute connection.id identity.role info) items ≡ false)))
  evaluate_statement-allow identity connection info d h a =
      let (role, resolved, s, t, (limit, e)) =
        evaluate_statement-decide identity connection info d h in
      let input = input_for false role connection info resolved in
      let allowed =
        decide-evaluate false (is_admin identity) identity role connection info resolved d limit e
          a in
      (
        role,
        resolved,
        s,
        t,
        ground (arith, allowed, effect-evaluate w.rules input),
        elim (Bool-cases (is_admin identity)) [
          | inl y ↦ inl y
          | inr n ↦ inr (
              decide-unblocked identity role connection info resolved d limit
                (subst
                  (λ b. decide w false b identity role connection info resolved ≡ some (d, limit)) n
                  e)
                a)
        ],
      )

  -- `EvaluateStatement` allows neither a write nor a statement of unknown or unrecognised kind to a
  -- caller whose role may only read, nor to anyone on a connection that is read-only.
  pub read_only-evaluate_statement :
      (identity : Identity) (connection : Connection) (info : Info) (d : Decision)
      (role : AccessRole)
      → role_of w.access identity.user_id ≡ some role
      → (role.read_only || connection.read_only) ≡ true
      → evaluate_statement w identity connection info ≡ some d
      → d.effect ≡ allow
      → (is_write info.kind ≡ false) × (info.kind ≢ other) × (info.kind ≢ unknown)
  unfolding input_for
  read_only-evaluate_statement identity connection info d role r reads h a =
      let (mine, resolved, s, t, (limit, e)) =
        evaluate_statement-decide identity connection info d h in
      read_only-evaluate w.rules (input_for false mine connection info resolved)
        (ground (arith, r, s, reads)) refl
        (decide-evaluate false (is_admin identity) identity mine connection info resolved d limit e
          a)
