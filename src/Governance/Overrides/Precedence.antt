-- ===== src/Governance/Overrides/Precedence.antt =====
-- Which override decides: the one for the role, then the one for the connection, then the global one.
use rowset_studio.Common.{
  ℕ, ◌≡◌, refl, sym, subst, Bool, true, false, not, Option, none, some, List, [], ◌∷◌, ◌++◌, Bytes,
  codes, is_word, bytes_eq, bytes_eq_iff, if◌then◌else◌, set_at, arith, Bool-cases, Option-cases,
  inl, inr, natural, String,
}
use mathlib.Core.List.{append-nil, append_assoc}
use rowset_studio.SqlGuard.Types.{Runtime}
use rowset_studio.Governance.Overrides.{
  PolicyOverride, Resolved, unresolved, toggle, limit_value, apply_override, apply_overrides, bare,
  is_scoped, for_connection, for_role, chosen, first_pass, resolve_policies,
}

-- The overrides in force, the weakest first: the global ones, those for the connection, those for
-- the role.
abbrev pub in_force : Runtime → Bytes → Bytes → List PolicyOverride → List PolicyOverride
in_force rt connection_id role items =
    chosen (λ i. not (is_scoped i)) items
    ++ (chosen (for_connection connection_id) items ++ chosen (for_role rt role) items)

-- What the last of them with a key says.
abbrev pub last_setting : Bytes → List PolicyOverride → Option Bool
last_setting key [] = none
last_setting key (item ∷ items) = elim (last_setting key items) [
  | some setting ↦ some setting
  | none ↦ if bytes_eq item.key key then some item.enabled else none
]

-- The last number among them for a limit.
abbrev pub last_limit : String → List PolicyOverride → Option ℕ
last_limit name [] = none
last_limit name (item ∷ items) = elim (last_limit name items) [
  | some limit ↦ some limit
  | none ↦ natural (limit_value name item)
]

abbrev pub or_else {ℓ} : {A : Type ℓ} → Option A → A → A
or_else none a = a
or_else (some b) a = b

abbrev pub or_else_not : Option Bool → Bool → Bool
or_else_not none b = b
or_else_not (some a) b = not a

apply_override-toggles :
    (item : PolicyOverride) (r : Resolved) (key : Bytes)
    → ((apply_override item r).enabled key
        ≡ (if bytes_eq item.key key then item.enabled else r.enabled key))
      × ((apply_override item r).disabled key
          ≡ (if bytes_eq item.key key then not item.enabled else r.disabled key))
unfolding apply_override toggle set_at
apply_override-toggles item r key = elim (Option-cases (natural (limit_value "limit_rows" item))) [
  | inr (n, e) ↦ ground (arith, e)
  | inl e ↦ elim (Option-cases (natural (limit_value "query_timeout_seconds" item))) [
    | inr (n, f) ↦ ground (arith, e, f)
    | inl f ↦ ground (arith, e, f)
  ]
]

apply_overrides-settings :
    (items : List PolicyOverride) (r : Resolved) (key : Bytes)
    → ((apply_overrides items r).enabled key ≡ or_else (last_setting key items) (r.enabled key))
      × ((apply_overrides items r).disabled key
          ≡ or_else_not (last_setting key items) (r.disabled key))
unfolding apply_overrides
apply_overrides-settings [] r key = ground arith
apply_overrides-settings (item ∷ items) r key = ground (
  arith,
  apply_override-toggles item r key,
  apply_overrides-settings items (apply_override item r) key,
)

rows_ne_timeout :
    (key : Bytes) → is_word key "limit_rows" ≡ true → is_word key "query_timeout_seconds" ≡ false
rows_ne_timeout key h =
    subst (λ k. is_word k "query_timeout_seconds" ≡ false)
      (sym ((bytes_eq_iff key (codes "limit_rows")).0 h)) (unfold bytes_eq in refl)

-- An override with a limit of rows has no timeout.
one_limit :
    (item : PolicyOverride) (n : ℕ)
    → natural (limit_value "limit_rows" item) ≡ some n
    → natural (limit_value "query_timeout_seconds" item) ≡ none
unfolding limit_value
one_limit item n e = elim (Bool-cases (is_word item.key "limit_rows")) [
  | inr f ↦ absurd (ground (arith, f, e))
  | inl t ↦ ground (arith, rows_ne_timeout item.key t)
]

apply_override-limits :
    (item : PolicyOverride) (r : Resolved)
    → ((apply_override item r).row_limit
        ≡ or_else (natural (limit_value "limit_rows" item)) r.row_limit)
      × ((apply_override item r).query_timeout
          ≡ or_else (natural (limit_value "query_timeout_seconds" item)) r.query_timeout)
unfolding apply_override toggle
apply_override-limits item r = elim (Option-cases (natural (limit_value "limit_rows" item))) [
  | inr (n, e) ↦ ground (arith, e, one_limit item n e)
  | inl e ↦ elim (Option-cases (natural (limit_value "query_timeout_seconds" item))) [
    | inr (n, f) ↦ ground (arith, e, f)
    | inl f ↦ ground (arith, e, f)
  ]
]

apply_overrides-limits :
    (items : List PolicyOverride) (r : Resolved)
    → ((apply_overrides items r).row_limit ≡ or_else (last_limit "limit_rows" items) r.row_limit)
      × ((apply_overrides items r).query_timeout
          ≡ or_else (last_limit "query_timeout_seconds" items) r.query_timeout)
unfolding apply_overrides
apply_overrides-limits [] r = ground arith
apply_overrides-limits (item ∷ items) r =
    ground
      (arith, apply_override-limits item r, apply_overrides-limits items (apply_override item r))

apply_overrides-append :
    (items later : List PolicyOverride) (r : Resolved)
    → apply_overrides (items ++ later) r ≡ apply_overrides later (apply_overrides items r)
unfolding apply_overrides
apply_overrides-append [] later r = refl
apply_overrides-append (item ∷ items) later r =
    apply_overrides-append items later (apply_override item r)

unscoped-for_connection :
    (connection_id : Bytes) (item : PolicyOverride)
    → is_scoped item ≡ false
    → for_connection connection_id item ≡ false
unfolding for_connection
unscoped-for_connection connection_id item n = ground (arith, n)

unscoped-for_role :
    (rt : Runtime) (role : Bytes) (item : PolicyOverride)
    → is_scoped item ≡ false
    → for_role rt role item ≡ false
unfolding for_role
unscoped-for_role rt role item n = ground (arith, n)

-- An item that a list takes at its end is the head of what is chosen later.
snoc_chosen :
    (b : Bool) (before later : List PolicyOverride) (item : PolicyOverride)
    → (if b then before ++ (item ∷ []) else before) ++ later
      ≡ before ++ (if b then item ∷ later else later)
snoc_chosen true before later item = append_assoc before (item ∷ []) later
snoc_chosen false before later item = refl

first_pass-chosen :
    (rt : Runtime) (connection_id role : Bytes) (items : List PolicyOverride) (r : Resolved)
    (connections roles : List PolicyOverride)
    → first_pass rt connection_id role items r connections roles ≡ (
      apply_overrides (chosen (λ i. not (is_scoped i)) items) r,
      connections ++ chosen (for_connection connection_id) items,
      roles ++ chosen (for_role rt role) items,
    )
unfolding first_pass apply_overrides chosen
first_pass-chosen rt connection_id role [] r connections roles =
    ground (arith, append-nil connections, append-nil roles)
first_pass-chosen rt connection_id role (item ∷ items) r connections roles =
    elim (Bool-cases (is_scoped item)) [
      | inr n ↦ ground (
        arith,
        n,
        unscoped-for_connection connection_id item n,
        unscoped-for_role rt role item n,
        first_pass-chosen rt connection_id role items (apply_override (bare item) r) connections
            roles,
      )
      | inl y ↦ ground (
        arith,
        y,
        snoc_chosen (for_connection connection_id item) connections
            (chosen (for_connection connection_id) items) (bare item),
        snoc_chosen (for_role rt role item) roles (chosen (for_role rt role) items) (bare item),
        first_pass-chosen rt connection_id role items r
            (if for_connection connection_id item
              then connections ++ (bare item ∷ [])
              else connections)
            (if for_role rt role item then roles ++ (bare item ∷ []) else roles),
      )
    ]

resolve_policies-in_force :
    (rt : Runtime) (connection_id role : Bytes) (items : List PolicyOverride)
    → resolve_policies rt connection_id role items
      ≡ apply_overrides (in_force rt connection_id role items) unresolved
unfolding resolve_policies
resolve_policies-in_force rt connection_id role items = ground (
  arith,
  first_pass-chosen rt connection_id role items unresolved [] [],
  apply_overrides-append (chosen (λ i. not (is_scoped i)) items)
      (chosen (for_connection connection_id) items ++ chosen (for_role rt role) items) unresolved,
)

-- For every key `resolvePolicies` puts what the last override in force says, where the overrides
-- for the role come after those for the connection and these after the global ones: a policy is
-- enabled or disabled accordingly, and neither if there is none. The limit of rows and the timeout
-- are the last ones in force, and 0 if there is none.
pub resolve_policies-last_setting :
    (rt : Runtime) (connection_id role : Bytes) (items : List PolicyOverride) (key : Bytes)
    → let resolved = resolve_policies rt connection_id role items in
      let force = in_force rt connection_id role items in
      (resolved.enabled key ≡ or_else (last_setting key force) false)
      × (resolved.disabled key ≡ or_else_not (last_setting key force) false)
      × (resolved.row_limit ≡ or_else (last_limit "limit_rows" force) 0)
      × (resolved.query_timeout ≡ or_else (last_limit "query_timeout_seconds" force) 0)
resolve_policies-last_setting rt connection_id role items key =
    let force = in_force rt connection_id role items in
    rw (resolve_policies-in_force rt connection_id role items) (
      ground (
        arith,
        apply_overrides-settings force unresolved key,
        apply_overrides-limits force unresolved,
      ))
