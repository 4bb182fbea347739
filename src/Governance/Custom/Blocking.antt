-- ===== src/Governance/Custom/Blocking.antt =====
-- Which custom policies are in force and block a statement: `applyCustomPolicies` of
-- rowset-core/internal/api/query.go.
use rowset_studio.Common.{
  ℕ, ◌≡◌, refl, subst, ap, ◌∙◌, Bool, true, ◌⊎◌, inl, inr, none, some, List, [], ◌∷◌, Bytes,
  bytes_eq, bytes_eq_iff, codes, is_word, any, Member, trim_space, arith, Bool-cases, Option-cases,
}
use rowset_studio.SqlGuard.Types.{Runtime, Info, TableRef, equal_fold, is_write}
use rowset_studio.Governance.Clock.{outside_hours}
use rowset_studio.Governance.Custom.{
  CustomPolicy, Case, deny_table, deny_schema, deny_statement, limit_rows, deny_write_outside_hours,
  extension, case_of, kind_name, match_table, match_schema, match_kind, applies, block_reason,
}

-- A policy is on, and is for every connection or this one, and for every role or this one.
abbrev pub InForce : Runtime → Bytes → Bytes → CustomPolicy → Type 0
InForce rt connection_id role item =
    (item.enabled ≡ true)
    × ((item.connection_id ≡ none) ⊎ (item.connection_id ≡ some connection_id))
    × ((item.role_name ≡ none)
        ⊎ ((name : Bytes) × (item.role_name ≡ some name) × (equal_fold rt name role ≡ true)))

-- A table of the statement has the name, or the schema, that the policy is set to.
abbrev pub IsNamed : Runtime → Info → (TableRef → Bytes) → CustomPolicy → Type 0
IsNamed rt info part item =
    (table : TableRef) × Member table info.tables
    × (equal_fold rt (part table) (trim_space item.config) ≡ true)

-- What each kind of policy blocks.
abbrev pub IsBlocking : Runtime → ℕ → Info → CustomPolicy → Type 0
IsBlocking rt minute info item =
    ((item.kind ≡ codes "deny_table") × IsNamed rt info (λ t. t.name) item)
    ⊎ (((item.kind ≡ codes "deny_schema") × IsNamed rt info (λ t. t.schema) item)
        ⊎ (((item.kind ≡ codes "deny_statement")
              × (equal_fold rt (kind_name info.kind) (trim_space item.config) ≡ true))
            ⊎ ((item.kind ≡ codes "deny_write_outside_hours")
                × (is_write info.kind ≡ true)
                × (outside_hours minute item.config ≡ true))))

any-found :
    {A : Type 0} (p : A → Bool) (xs : List A)
    → any p xs ≡ true
    → (x : A) × Member x xs × (p x ≡ true)
any-found p [] h = absurd (ground (arith, h))
any-found p (x ∷ xs) h = elim (Bool-cases (p x)) [
  | inl y ↦ (x, inl refl, y)
  | inr n ↦ let (z, m, q) = any-found p xs (ground (arith, h, n)) in (z, inr m, q)
]

any-Member :
    {A : Type 0} (p : A → Bool) (x : A) (xs : List A) → Member x xs → p x ≡ true → any p xs ≡ true
any-Member p x [] m h = elim m [ ]
any-Member p x (y ∷ xs) (inl e) h =
    let here : p y ≡ true = subst (λ z. p z ≡ true) e h in ground (arith, here)
any-Member p x (y ∷ xs) (inr m) h = ground (arith, any-Member p x xs m h)

pub applies-InForce :
    (rt : Runtime) (connection_id role : Bytes) (item : CustomPolicy)
    → applies rt connection_id role item ≡ true
    → InForce rt connection_id role item
unfolding applies
applies-InForce rt connection_id role item h = (
  ground (arith, h),
  elim (Option-cases item.connection_id) [
    | inl n ↦ inl n
    | inr (c, e) ↦
        let same : bytes_eq c connection_id ≡ true = ground (arith, (rw e at h)) in
        inr (e ∙ ap (λ x. some x) ((bytes_eq_iff c connection_id).0 same))
  ],
  elim (Option-cases item.role_name) [
    | inl n ↦ inl n
    | inr (r, e) ↦ inr (r, e, ground (arith, (rw e at h)))
  ],
)

pub InForce-applies :
    (rt : Runtime) (connection_id role : Bytes) (item : CustomPolicy)
    → InForce rt connection_id role item
    → applies rt connection_id role item ≡ true
unfolding applies
InForce-applies rt connection_id role item (on, c, r) =
    let own = (bytes_eq_iff connection_id connection_id).1 refl in
    elim c [
      | inl cn ↦ elim r [
        | inl rn ↦ rw (on, cn, rn) refl
        | inr (name, e, f) ↦ rw (on, cn, e, f) refl
      ]
      | inr ce ↦ elim r [
        | inl rn ↦ rw (on, ce, rn, own) refl
        | inr (name, e, f) ↦ rw (on, ce, e, f, own) refl
      ]
    ]

case_of-table : (kind : Bytes) → case_of kind ≡ deny_table → kind ≡ codes "deny_table"
unfolding case_of bytes_eq
case_of-table kind h =
    (bytes_eq_iff kind (codes "deny_table")).0
      (let x : is_word kind "deny_table" ≡ true = ground (arith, h) in x)

case_of-schema : (kind : Bytes) → case_of kind ≡ deny_schema → kind ≡ codes "deny_schema"
unfolding case_of bytes_eq
case_of-schema kind h =
    (bytes_eq_iff kind (codes "deny_schema")).0
      (let x : is_word kind "deny_schema" ≡ true = ground (arith, h) in x)

case_of-statement : (kind : Bytes) → case_of kind ≡ deny_statement → kind ≡ codes "deny_statement"
unfolding case_of bytes_eq
case_of-statement kind h =
    (bytes_eq_iff kind (codes "deny_statement")).0
      (let x : is_word kind "deny_statement" ≡ true = ground (arith, h) in x)

case_of-hours :
    (kind : Bytes)
    → case_of kind ≡ deny_write_outside_hours
    → kind ≡ codes "deny_write_outside_hours"
unfolding case_of bytes_eq
case_of-hours kind h =
    (bytes_eq_iff kind (codes "deny_write_outside_hours")).0
      (let x : is_word kind "deny_write_outside_hours" ≡ true = ground (arith, h) in x)

-- A kind has the case of its word.
word_case : (kind word : Bytes) (c : Case) → case_of word ≡ c → kind ≡ word → case_of kind ≡ c
word_case kind word c h e = ap case_of e ∙ h

module _ (rt : Runtime) (minute : ℕ) (info : Info) where
  pub block_reason-IsBlocking :
      (item : CustomPolicy) (reason : Bytes) (c : Case)
      → case_of item.kind ≡ c
      → block_reason rt minute info item ≡ some reason
      → IsBlocking rt minute info item
  unfolding block_reason match_table match_schema match_kind
  block_reason-IsBlocking item reason deny_table e h = inl (
    case_of-table item.kind e,
    any-found (λ t. equal_fold rt t.name (trim_space item.config)) info.tables
        (ground (arith, (rw (block_reason, e) at h))),
  )
  block_reason-IsBlocking item reason deny_schema e h = inr (
      inl (
        case_of-schema item.kind e,
        any-found (λ t. equal_fold rt t.schema (trim_space item.config)) info.tables
            (ground (arith, (rw (block_reason, e) at h))),
      ))
  block_reason-IsBlocking item reason deny_statement e h =
      inr (inr (inl (case_of-statement item.kind e, ground (arith, (rw (block_reason, e) at h)))))
  block_reason-IsBlocking item reason deny_write_outside_hours e h =
      let test = rw (block_reason, e) at h in
      inr (inr (inr (case_of-hours item.kind e, ground (arith, test), ground (arith, test))))
  block_reason-IsBlocking item reason limit_rows e h =
      absurd (ground (arith, (rw (block_reason, e) at h)))
  block_reason-IsBlocking item reason extension e h =
      absurd (ground (arith, (rw (block_reason, e) at h)))

  pub IsBlocking-block_reason :
      (item : CustomPolicy)
      → IsBlocking rt minute info item
      → block_reason rt minute info item ≡ none
      → ⊥
  unfolding block_reason match_table match_schema match_kind case_of bytes_eq
  IsBlocking-block_reason item (inl (e, (t, m, f))) h =
      let case_ = word_case item.kind (codes "deny_table") deny_table refl e in
      let found =
        any-Member (λ t. equal_fold rt t.name (trim_space item.config)) t info.tables m f in
      ground (arith, (rw (block_reason, case_) at h), found)
  IsBlocking-block_reason item (inr (inl (e, (t, m, f)))) h =
      let case_ = word_case item.kind (codes "deny_schema") deny_schema refl e in
      let found =
        any-Member (λ t. equal_fold rt t.schema (trim_space item.config)) t info.tables m f in
      ground (arith, (rw (block_reason, case_) at h), found)
  IsBlocking-block_reason item (inr (inr (inl (e, f)))) h =
      let case_ = word_case item.kind (codes "deny_statement") deny_statement refl e in
      ground (arith, (rw (block_reason, case_) at h), f)
  IsBlocking-block_reason item (inr (inr (inr (e, w, o)))) h =
      let case_ =
        word_case item.kind (codes "deny_write_outside_hours") deny_write_outside_hours refl e in
      ground (arith, (rw (block_reason, case_) at h), w, o)
