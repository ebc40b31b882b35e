-- ===== src/Auth/Tests.antt =====
-- Permissions at concrete inputs.
use ved_db_server.Prelude.{◌≡◌, refl, true, false, none, some, [], ◌∷◌}
use mathlib.Core.List.Perm
use ved_db_server.Prelude.Maps.{lookup, String-Eq}
use ved_db_server.Auth.Operations
use ved_db_server.Auth.Operations.{
  Operation, as_str, from_str, same_role, same_operation, operation_number, role_str,
}
use ved_db_server.Auth.Operations.Names.{Role-Eq}
use ved_db_server.Auth.Rbac.{
  RbacSystem, AclEntry, Permission, granted, collection, new, contains, resource_type_number,
  same_resource, find_acl, after_loop, entry_loop, no_flags, check_permission,
  check_resource_permission,
}
use ved_db_server.Auth.Rbac.Decision.{acl_answer, check_resource_permission-acl, after_loop-Perm}

abbrev permission : Operation → Permission
permission op = record { operation = op; resource = none; conditions = [] }

-- Writers may write, but not bob.
abbrev writers : AclEntry
writers = record {
  principal = "read_write";
  permissions = permission Operations.write ∷ [];
  deny = false;
}

abbrev not_bob : AclEntry
not_bob = record { principal = "bob"; permissions = permission Operations.write ∷ []; deny = true }

abbrev guarded : RbacSystem
guarded = record new { resource_acls = (collection "orders", writers ∷ not_bob ∷ []) ∷ [] }

writer_may : check_permission guarded Operations.read_write Operations.write ≡ granted
unfolding check_permission lookup Role-Eq same_role contains same_operation operation_number
writer_may = refl

orders_acl : find_acl (collection "orders") guarded.resource_acls ≡ some (writers ∷ not_bob ∷ [])
unfolding find_acl same_resource resource_type_number String-Eq
orders_acl = refl

check_resource_permission-acl_example :
    check_resource_permission guarded "bob" Operations.read_write Operations.write
      (collection "orders")
    ≡ acl_answer "bob" Operations.read_write Operations.write (writers ∷ not_bob ∷ [])
check_resource_permission-acl_example =
    check_resource_permission-acl guarded "bob" Operations.read_write Operations.write
      (collection "orders") (writers ∷ not_bob ∷ []) writer_may orders_acl

after_loop-Perm_example :
    after_loop
      (entry_loop "bob" Operations.read_write Operations.write (writers ∷ not_bob ∷ []) no_flags)
    ≡ after_loop
        (entry_loop "bob" Operations.read_write Operations.write (not_bob ∷ writers ∷ []) no_flags)
after_loop-Perm_example =
    after_loop-Perm "bob" Operations.read_write Operations.write (writers ∷ not_bob ∷ [])
      (not_bob ∷ writers ∷ []) (Perm.swap not_bob writers [])
