-- ===== src/Access/Grants.antt =====
-- Who is granted a connection.
use rowset_studio.Common.{
  ◌≡◌, ◌↔◌, refl, true, false, Option, none, some, Bytes, bytes_eq_iff, arith, codes, [], ◌⊎◌, inl,
  inr, Bool-cases, Option-cases,
}
use rowset_studio.Access.{
  Identity, Connection, Access, AccessRole, is_admin, owner_access, access_rules, role_of,
  connection_grant, can_use_connection,
}

-- The rules name a role for the user, and grant the connection to it without an error.
abbrev pub Granted : Access → Identity → Bytes → Type 0
Granted access identity connection_id =
    (role : AccessRole) × (access.role identity.user_id ≡ some role)
    × ((access.connection identity role connection_id).1 ≡ true)
    × ((access.connection identity role connection_id).2 ≡ true)

granted :
    (installed : Option Access) (identity : Identity) (connection_id : Bytes)
    → (connection_grant installed identity connection_id).1 ≡ true
    → (is_admin identity ≡ true) ⊎ Granted (access_rules installed) identity connection_id
unfolding connection_grant role_of
granted installed identity connection_id h =
    let access = access_rules installed in
    elim (Bool-cases (is_admin identity)) [
      | inl a ↦ inl a
      | inr a ↦ elim (Option-cases (access.role identity.user_id)) [
        | inl n ↦ absurd (ground (arith, a, n, h))
        | inr (role, s) ↦ inr (role, s, ground (arith, a, s, h), ground (arith, a, s, h))
      ]
    ]

grants :
    (installed : Option Access) (identity : Identity) (connection_id : Bytes)
    → (is_admin identity ≡ true) ⊎ Granted (access_rules installed) identity connection_id
    → (connection_grant installed identity connection_id).1 ≡ true
unfolding connection_grant role_of
grants installed identity connection_id (inl a) = ground (arith, a)
grants installed identity connection_id (inr g) = ground (arith, g.1, g.2, g.3)

-- The caller may use a connection exactly when it belongs to the caller's organization, and the
-- caller is an administrator or the rules in force name a role for the caller and grant that role
-- the connection, with no error.
pub can_use_connection_iff :
    (installed : Option Access) (identity : Identity) (connection : Connection)
    → (can_use_connection installed identity connection ≡ true) ↔ (
        (connection.org_id ≡ identity.org_id)
        × ((is_admin identity ≡ true) ⊎ Granted (access_rules installed) identity connection.id))
unfolding can_use_connection
can_use_connection_iff installed identity connection =
    let same = bytes_eq_iff connection.org_id identity.org_id in
    (
      λ h. (
        ground (arith, same, h),
        granted installed identity connection.id (ground (arith, same, h)),
      ),
      λ h. ground (arith, same, h.0, grants installed identity connection.id h.1),
    )

owner_access-grants :
    (identity : Identity) (connection_id : Bytes) → ¬ Granted owner_access identity connection_id
unfolding owner_access
owner_access-grants identity connection_id g = ground (arith, g.2)

own_role :
    (identity : Identity)
    → (role : AccessRole) × (role_of none identity.user_id ≡ some role)
      × (role.name ≡ codes "admin")
      × (role.read_only ≡ false)
unfolding role_of access_rules owner_access
own_role identity =
    let role : AccessRole = record { id = []; name = codes "admin"; read_only = false } in
    (role, refl, refl, refl)

-- With no rules installed, only an administrator of the connection's organization may use it, and
-- the rules answer every user with the role of an administrator that is not read-only.
pub can_use_connection-owner :
    (identity : Identity) (connection : Connection)
    → ((can_use_connection none identity connection ≡ true)
        ↔ ((connection.org_id ≡ identity.org_id) × (is_admin identity ≡ true)))
      × ((role : AccessRole) × (role_of none identity.user_id ≡ some role)
          × (role.name ≡ codes "admin")
          × (role.read_only ≡ false))
unfolding access_rules
can_use_connection-owner identity connection =
    let iff = can_use_connection_iff none identity connection in
    let nobody = owner_access-grants identity connection.id in
    (
      (
        λ h. ((iff.0 h).0, elim (iff.0 h).1 [ inl a ↦ a | inr g ↦ absurd (nobody g) ]),
        λ h. iff.1 (h.0, inl h.1),
      ),
      own_role identity,
    )
