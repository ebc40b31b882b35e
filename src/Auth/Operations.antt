-- ===== src/Auth/Operations.antt =====
-- `Operation` of auth/rbac.rs and `Role` of auth/user.rs, with their names. A type error of a parse is
-- `none`.
pub mod Names
use ved_db_server.Prelude.{
  ℕ, zero, suc, ◌+◌, ◌-◌, ◌*◌, ◌/◌, ◌%◌, ◌^◌, ◌≤◌, ◌<◌, min, max, bit_and, bit_xor, ◌≡◌, refl, sym,
  ap, ap₂, subst, ◌∙◌, ◌≢◌, ◌↔◌, ◌⊎◌, inl, inr, Bool, true, false, not, ◌&&◌, ◌||◌, Option, none,
  some, List, [], ◌∷◌, ◌++◌, map, arith, ltb, leb, ◌==◌, if◌then◌else◌, ltb→lt, lt→ltb, leb→le,
  le→leb, ==_iff, Bool-cases, Option-cases, length, get_elem?, get_or, set, take, drop, replicate,
  All, length-append, length-replicate, length-set, get_or-set_self, get_or-set_ne, get_or-set,
  get_or-replicate, take-append_length, length-drop, All-append, All-drop,
}
use Prim.Native.String.{String}
use ved_db_server.Prelude.Maps.{lookup, String-Eq}

pub data Operation : Type 0 where
  read write delete create_collection drop_collection list_collections create_index drop_index
        list_indexes create_user update_user delete_user list_users change_password backup restore
        view_metrics view_logs configure_server subscribe publish flush_cache view_cache_stats
        configure_replication view_replication_status :
      Operation

unfoldable pub as_str : Operation → String
as_str read = "read"
as_str write = "write"
as_str delete = "delete"
as_str create_collection = "create_collection"
as_str drop_collection = "drop_collection"
as_str list_collections = "list_collections"
as_str create_index = "create_index"
as_str drop_index = "drop_index"
as_str list_indexes = "list_indexes"
as_str create_user = "create_user"
as_str update_user = "update_user"
as_str delete_user = "delete_user"
as_str list_users = "list_users"
as_str change_password = "change_password"
as_str backup = "backup"
as_str restore = "restore"
as_str view_metrics = "view_metrics"
as_str view_logs = "view_logs"
as_str configure_server = "configure_server"
as_str subscribe = "subscribe"
as_str publish = "publish"
as_str flush_cache = "flush_cache"
as_str view_cache_stats = "view_cache_stats"
as_str configure_replication = "configure_replication"
as_str view_replication_status = "view_replication_status"

-- the arms of the match in `from_str`, in their order
abbrev pub operation_arms : List (String × Operation)
operation_arms =
    ("read", read)
    ∷ ("write", write)
    ∷ ("delete", delete)
    ∷ ("create_collection", create_collection)
    ∷ ("drop_collection", drop_collection)
    ∷ ("list_collections", list_collections)
    ∷ ("create_index", create_index)
    ∷ ("drop_index", drop_index)
    ∷ ("list_indexes", list_indexes)
    ∷ ("create_user", create_user)
    ∷ ("update_user", update_user)
    ∷ ("delete_user", delete_user)
    ∷ ("list_users", list_users)
    ∷ ("change_password", change_password)
    ∷ ("backup", backup)
    ∷ ("restore", restore)
    ∷ ("view_metrics", view_metrics)
    ∷ ("view_logs", view_logs)
    ∷ ("configure_server", configure_server)
    ∷ ("subscribe", subscribe)
    ∷ ("publish", publish)
    ∷ ("flush_cache", flush_cache)
    ∷ ("view_cache_stats", view_cache_stats)
    ∷ ("configure_replication", configure_replication)
    ∷ ("view_replication_status", view_replication_status)
    ∷ []

unfoldable pub from_str : String → Option Operation
unfolding lookup String-Eq
from_str s = lookup s operation_arms

-- the derived equality, by the place in the enumeration
unfoldable pub operation_number : Operation → ℕ
operation_number read = 0
operation_number write = 1
operation_number delete = 2
operation_number create_collection = 3
operation_number drop_collection = 4
operation_number list_collections = 5
operation_number create_index = 6
operation_number drop_index = 7
operation_number list_indexes = 8
operation_number create_user = 9
operation_number update_user = 10
operation_number delete_user = 11
operation_number list_users = 12
operation_number change_password = 13
operation_number backup = 14
operation_number restore = 15
operation_number view_metrics = 16
operation_number view_logs = 17
operation_number configure_server = 18
operation_number subscribe = 19
operation_number publish = 20
operation_number flush_cache = 21
operation_number view_cache_stats = 22
operation_number configure_replication = 23
operation_number view_replication_status = 24

unfoldable pub same_operation : Operation → Operation → Bool
same_operation a b = operation_number a == operation_number b

pub data Role : Type 0 where
  admin read_write read_only : Role

unfoldable pub role_str : Role → String
role_str admin = "admin"
role_str read_write = "read_write"
role_str read_only = "read_only"

abbrev pub role_arms : List (String × Role)
role_arms = ("admin", admin) ∷ ("read_write", read_write) ∷ ("read_only", read_only) ∷ []

unfoldable pub role_from_str : String → Option Role
unfolding lookup String-Eq
role_from_str s = lookup s role_arms

unfoldable pub same_role : Role → Role → Bool
same_role admin admin = true
same_role read_write read_write = true
same_role read_only read_only = true
same_role a b = false
