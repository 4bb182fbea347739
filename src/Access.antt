-- ===== src/Access.antt =====
-- Who may use a connection: rowset-core/internal/api/access.go, with `Identity.IsAdmin` and
-- `equalFoldASCII` of rowset-core/internal/domain/models.go.
pub mod Grants
use rowset_studio.Common.{
  Bool, true, false, not, ◌&&◌, ◌==◌, Option, none, some, List, [], ◌∷◌, Bytes, codes, bytes_eq,
  lower_byte, if◌then◌else◌, ◌+◌, leb, ltb,
}

pub record Identity : Type 0 where
  pub user_id : Bytes
  pub org_id : Bytes
  pub email : Bytes
  pub role : Bytes

-- `equalFoldASCII`.
unfoldable pub equal_fold_ascii : Bytes → Bytes → Bool
equal_fold_ascii [] [] = true
equal_fold_ascii (a ∷ as') (b ∷ bs) = lower_byte a == lower_byte b && equal_fold_ascii as' bs
equal_fold_ascii _ _ = false

-- `Identity.IsAdmin`.
unfoldable pub is_admin : Identity → Bool
unfolding equal_fold_ascii
is_admin identity = equal_fold_ascii identity.role (codes "admin")

-- The fields of a connection that access and the guardrails look at.
pub record Connection : Type 0 where
  pub id : Bytes
  pub org_id : Bytes
  pub environment : Bytes
  pub read_only : Bool

pub record AccessRole : Type 0 where
  pub id : Bytes
  pub name : Bytes
  pub read_only : Bool

pub record ConnectionGrant : Type 0 where
  pub node_policy : Bytes
  pub default_node_role : Bytes

abbrev no_grant : ConnectionGrant
no_grant = record { node_policy = []; default_node_role = [] }

-- The interface `Access`: `none` is an error; the Booleans are `ok` and `err == nil`.
pub record Access : Type 0 where
  pub role : Bytes → Option AccessRole
  pub connection : Identity → AccessRole → Bytes → ConnectionGrant × Bool × Bool

-- `ownerAccess`.
unfoldable pub owner_access : Access
owner_access = record {
  role = λ user_id. some (record { id = []; name = codes "admin"; read_only = false });
  connection = λ identity role connection_id. (no_grant, false, true);
}

-- `accessRules`: the installed rules, or the owner's.
unfoldable pub access_rules : Option Access → Access
access_rules none = owner_access
access_rules (some access) = access

-- `Server.role`.
unfoldable pub role_of : Option Access → Bytes → Option AccessRole
role_of installed user_id = (access_rules installed).role user_id

-- `connectionGrant`.
unfoldable pub connection_grant : Option Access → Identity → Bytes → ConnectionGrant × Bool
connection_grant installed identity connection_id =
    if is_admin identity
    then (
      record { node_policy = codes "user_selectable"; default_node_role = codes "primary" },
      true,
    )
    else elim (role_of installed identity.user_id) [
      | none ↦ (no_grant, false)
      | some role ↦
          let (grant, ok, sound) =
            (access_rules installed).connection identity role connection_id in
          (grant, ok && sound)
    ]

-- `canUseConnection`.
unfoldable pub can_use_connection : Option Access → Identity → Connection → Bool
unfolding bytes_eq
can_use_connection installed identity connection =
    if not (bytes_eq connection.org_id identity.org_id)
    then false
    else (connection_grant installed identity connection.id).1
