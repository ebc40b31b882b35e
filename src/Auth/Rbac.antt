-- ===== src/Auth/Rbac.antt =====
-- `RbacSystem` of auth/rbac.rs. A set of operations is a list, and the error of a check is a value that
-- says which of its three refusals it is; the texts of the errors are left out.
pub mod Decision
pub mod Roles
use ved_db_server.Prelude.{
  ℕ, zero, suc, ◌+◌, ◌-◌, ◌*◌, ◌/◌, ◌%◌, ◌^◌, ◌≤◌, ◌<◌, min, max, bit_and, bit_xor, ◌≡◌, refl, sym,
  ap, ap₂, subst, ◌∙◌, ◌≢◌, ◌↔◌, ◌⊎◌, inl, inr, Bool, true, false, not, ◌&&◌, ◌||◌, Option, none,
  some, List, [], ◌∷◌, ◌++◌, map, arith, ltb, leb, ◌==◌, if◌then◌else◌, ltb→lt, lt→ltb, leb→le,
  le→leb, ==_iff, Bool-cases, Option-cases, length, get_elem?, get_or, set, take, drop, replicate,
  All, length-append, length-replicate, length-set, get_or-set_self, get_or-set_ne, get_or-set,
  get_or-replicate, take-append_length, length-drop, All-append, All-drop,
}
use Prim.Native.String
use Prim.Native.String.{String}
use text.Mathlib.Text
use ved_db_server.Prelude.Maps.{Eq, Map, String-Eq, lookup, insert, erase}
use ved_db_server.Auth.Operations.{Operation, same_operation, Role, role_str, same_role}
use ved_db_server.Auth.Operations
use ved_db_server.Auth.Operations.Names.{Role-Eq}

pub data ResourceType : Type 0 where
  collection_type index_type user_type database_type channel_type : ResourceType

pub record Resource : Type 0 where
  pub resource_type : ResourceType
  pub resource_id : String

abbrev pub collection : String → Resource
collection name = record { resource_type = collection_type; resource_id = name }

-- `format!("{}:{}", collection, index_name)`
abbrev pub index : String → String → Resource
index of index_name = record {
  resource_type = index_type;
  resource_id = String.◌++◌ of (String.◌++◌ ":" index_name);
}

abbrev pub user : String → Resource
user username = record { resource_type = user_type; resource_id = username }

abbrev pub database : String → Resource
database name = record { resource_type = database_type; resource_id = name }

abbrev pub channel : String → Resource
channel name = record { resource_type = channel_type; resource_id = name }

unfoldable pub resource_type_number : ResourceType → ℕ
resource_type_number collection_type = 0
resource_type_number index_type = 1
resource_type_number user_type = 2
resource_type_number database_type = 3
resource_type_number channel_type = 4

-- the derived equality
unfoldable pub same_resource : Resource → Resource → Bool
same_resource a b =
    resource_type_number a.resource_type == resource_type_number b.resource_type
    && String-Eq.same a.resource_id b.resource_id

pub record Permission : Type 0 where
  pub operation : Operation
  pub resource : Option Resource
  pub conditions : List String

pub record AclEntry : Type 0 where
  pub principal : String
  pub permissions : List Permission
  pub deny : Bool

pub record RbacSystem : Type 0 where
  pub role_permissions : Map Role (List Operation)
  pub resource_acls : List (Resource × List AclEntry)

unfoldable pub contains : List Operation → Operation → Bool
contains [] op = false
contains (x ∷ xs) op = same_operation x op || contains xs op

abbrev pub admin_permissions : List Operation
admin_permissions =
    Operations.read ∷ Operations.write ∷ Operations.delete ∷ Operations.create_collection
    ∷ Operations.drop_collection ∷ Operations.list_collections ∷ Operations.create_index
    ∷ Operations.drop_index ∷ Operations.list_indexes ∷ Operations.create_user
    ∷ Operations.update_user ∷ Operations.delete_user ∷ Operations.list_users
    ∷ Operations.change_password ∷ Operations.backup ∷ Operations.restore ∷ Operations.view_metrics
    ∷ Operations.view_logs ∷ Operations.configure_server ∷ Operations.subscribe ∷ Operations.publish
    ∷ Operations.flush_cache ∷ Operations.view_cache_stats ∷ Operations.configure_replication
    ∷ Operations.view_replication_status ∷ []

abbrev pub readwrite_permissions : List Operation
readwrite_permissions =
    Operations.read ∷ Operations.write ∷ Operations.delete ∷ Operations.list_collections
    ∷ Operations.list_indexes ∷ Operations.change_password ∷ Operations.subscribe
    ∷ Operations.publish ∷ Operations.view_cache_stats ∷ Operations.view_replication_status ∷ []

abbrev pub readonly_permissions : List Operation
readonly_permissions =
    Operations.read ∷ Operations.list_collections ∷ Operations.list_indexes
    ∷ Operations.change_password ∷ Operations.subscribe ∷ Operations.view_cache_stats
    ∷ Operations.view_replication_status ∷ []

abbrev pub default_permissions : Map Role (List Operation)
default_permissions =
    (Operations.admin, admin_permissions)
    ∷ (Operations.read_write, readwrite_permissions)
    ∷ (Operations.read_only, readonly_permissions)
    ∷ []

abbrev pub new : RbacSystem
new = record { role_permissions = default_permissions; resource_acls = [] }

pub data Refusal : Type 0 where
  unknown_role no_permission denied_by_acl no_explicit_permission : Refusal

pub data Access : Type 0 where
  granted : Access
  refused : Refusal → Access

unfoldable pub check_permission : RbacSystem → Role → Operation → Access
check_permission s role op = elim (lookup role s.role_permissions) [
  | none ↦ refused unknown_role
  | some permissions ↦ if contains permissions op then granted else refused no_permission
]

unfoldable pub find_acl : Resource → List (Resource × List AclEntry) → Option (List AclEntry)
find_acl r [] = none
find_acl r ((k, entries) ∷ acls) =
    let rest = find_acl r acls in if same_resource k r then some entries else rest

-- the three flags of the loop
pub record Flags : Type 0 where
  pub allowed : Bool
  pub denied : Bool
  pub has_matching_entry : Bool

unfoldable pub matches : String → Role → AclEntry → Bool
matches username role e =
    String-Eq.same e.principal username || String-Eq.same e.principal (role_str role)

-- the loop over the permissions of a matching entry
unfoldable pub permission_loop : Operation → Bool → List Permission → Flags → Flags
permission_loop op deny [] f = f
permission_loop op deny (p ∷ ps) f =
    let g : Flags =
      if same_operation p.operation op
      then (if deny then record f { denied = true } else record f { allowed = true })
      else f in
    permission_loop op deny ps g

-- the loop over the entries
unfoldable pub entry_loop : String → Role → Operation → List AclEntry → Flags → Flags
entry_loop username role op [] f = f
entry_loop username role op (e ∷ es) f =
    let g : Flags =
      if matches username role e
      then permission_loop op e.deny e.permissions (record f { has_matching_entry = true })
      else f in
    entry_loop username role op es g

-- what the flags decide after the loop
unfoldable pub after_loop : Flags → Access
after_loop f =
    if f.denied
    then refused denied_by_acl
    else if f.has_matching_entry && not f.allowed
    then refused no_explicit_permission
    else granted

abbrev pub no_flags : Flags
no_flags = record { allowed = false; denied = false; has_matching_entry = false }

-- the part of `check_resource_permission` after the check of the role
unfoldable pub check_acl : RbacSystem → String → Role → Operation → Resource → Access
check_acl s username role op r = elim (find_acl r s.resource_acls) [
  | none ↦ granted
  | some entries ↦ after_loop (entry_loop username role op entries no_flags)
]

unfoldable pub check_resource_permission :
    RbacSystem → String → Role → Operation → Resource → Access
check_resource_permission s username role op r = elim (check_permission s role op) [
  | refused why ↦ refused why
  | granted ↦ check_acl s username role op r
]

-- `insert` into a set
unfoldable pub insert_operation : Operation → List Operation → List Operation
insert_operation op ops = if contains ops op then ops else ops ++ (op ∷ [])

unfoldable pub remove_operation : Operation → List Operation → List Operation
remove_operation op [] = []
remove_operation op (x ∷ xs) =
    let rest = remove_operation op xs in if same_operation x op then rest else x ∷ rest

unfoldable pub add_role_permission : RbacSystem → Role → Operation → RbacSystem
add_role_permission s role op = record s {
  role_permissions = elim (lookup role s.role_permissions) [
    | none ↦ insert role (op ∷ []) s.role_permissions
    | some ops ↦ insert role (insert_operation op ops) s.role_permissions
  ];
}

unfoldable pub remove_role_permission : RbacSystem → Role → Operation → RbacSystem
remove_role_permission s role op = elim (lookup role s.role_permissions) [
  | none ↦ s
  | some ops ↦ record s {
    role_permissions = insert role (remove_operation op ops) s.role_permissions;
  }
]

unfoldable pub push_acl :
    Resource → AclEntry → List (Resource × List AclEntry) → List (Resource × List AclEntry)
push_acl r e [] = (r, e ∷ []) ∷ []
push_acl r e ((k, entries) ∷ acls) =
    let rest = push_acl r e acls in
    if same_resource k r then (k, entries ++ (e ∷ [])) ∷ acls else (k, entries) ∷ rest

unfoldable pub add_acl_entry : RbacSystem → Resource → AclEntry → RbacSystem
add_acl_entry s r e = record s { resource_acls = push_acl r e s.resource_acls }

unfoldable pub drop_acl :
    Resource → List (Resource × List AclEntry) → List (Resource × List AclEntry)
drop_acl r [] = []
drop_acl r ((k, entries) ∷ acls) =
    let rest = drop_acl r acls in if same_resource k r then rest else (k, entries) ∷ rest

unfoldable pub remove_acl_entries : RbacSystem → Resource → RbacSystem
remove_acl_entries s r = record s { resource_acls = drop_acl r s.resource_acls }

unfoldable pub authorize : RbacSystem → String → Role → Operation → Option Resource → Access
authorize s username role op (some r) = check_resource_permission s username role op r
authorize s username role op none = check_permission s role op

unfoldable pub is_admin_operation : Operation → Bool
is_admin_operation Operations.create_user = true
is_admin_operation Operations.update_user = true
is_admin_operation Operations.delete_user = true
is_admin_operation Operations.list_users = true
is_admin_operation Operations.backup = true
is_admin_operation Operations.restore = true
is_admin_operation Operations.view_logs = true
is_admin_operation Operations.configure_server = true
is_admin_operation Operations.flush_cache = true
is_admin_operation Operations.configure_replication = true
is_admin_operation op = false
