-- ===== src/Auth/Rbac/Roles.antt =====
-- The permissions of roles in auth/rbac.rs.
use ved_db_server.Prelude.{
  ◌≡◌, refl, sym, ap, ◌∙◌, inl, inr, Bool, true, false, not, ◌&&◌, ◌||◌, Option, none, some, List,
  [], ◌∷◌, ◌++◌, arith, if◌then◌else◌, Bool-cases,
}
use ved_db_server.Prelude.Maps.{lookup, insert, lookup-insert}
use ved_db_server.Auth.Operations
use ved_db_server.Auth.Operations.{Operation, same_operation, operation_number, Role, same_role}
use ved_db_server.Auth.Operations.Names.{
  Role-Eq, same_operation_iff, same_role_iff, every, numbered, every_operation,
}
use ved_db_server.Auth.Rbac.{
  RbacSystem, Access, granted, refused, no_permission, unknown_role, new, contains,
  check_permission, insert_operation, remove_operation, add_role_permission, remove_role_permission,
  is_admin_operation,
}

abbrev pub is_granted : Access → Bool
is_granted granted = true
is_granted (refused why) = false

-- what a new system lets the role do
abbrev may : Role → Operation → Bool
may role op = is_granted (check_permission new role op)

admin_may : every (may Operations.admin) numbered ≡ true
unfolding every check_permission contains lookup Role-Eq same_role same_operation operation_number
admin_may = refl

readers_may_less :
    every (λ op. not (may Operations.read_only op) || may Operations.read_write op) numbered ≡ true
unfolding every check_permission contains lookup Role-Eq same_role same_operation operation_number
readers_may_less = refl

writers_not_admin :
    every (λ op. not (is_admin_operation op && may Operations.read_write op)) numbered ≡ true
unfolding every check_permission contains lookup Role-Eq same_role same_operation operation_number
    is_admin_operation
writers_not_admin = refl

-- In a new system an administrator may do everything, the read-only role nothing that the
-- read-write role may not, and the read-write role no administrator's operation.
check_permission-new :
    (op : Operation)
    → (is_granted (check_permission new Operations.admin op) ≡ true)
      × (not (is_granted (check_permission new Operations.read_only op))
            || is_granted (check_permission new Operations.read_write op)
          ≡ true)
      × (is_admin_operation op && is_granted (check_permission new Operations.read_write op)
          ≡ false)
check_permission-new op = (
  every_operation (may Operations.admin) admin_may op,
  every_operation _ readers_may_less op,
  ground (
    arith,
    every_operation (λ x. not (is_admin_operation x && may Operations.read_write x))
        writers_not_admin op,
  ),
)

contains-append :
    (ops more : List Operation) (op : Operation)
    → contains (ops ++ more) op ≡ (contains ops op || contains more op)
unfolding contains
contains-append [] more op = refl
contains-append (x ∷ ops) more op = ground (arith, contains-append ops more op)

contains-insert_operation :
    (op other : Operation) (ops : List Operation)
    → contains (insert_operation op ops) other ≡ (same_operation op other || contains ops other)
unfolding insert_operation contains
contains-insert_operation op other ops =
    ground (arith, contains-append ops (op ∷ []) other, same_operation_iff op other)

contains-remove_operation :
    (op other : Operation) (ops : List Operation)
    → contains (remove_operation op ops) other
      ≡ (not (same_operation op other) && contains ops other)
unfolding remove_operation contains
contains-remove_operation op other [] = ground arith
contains-remove_operation op other (x ∷ ops) = ground (
  arith,
  same_operation_iff x op,
  same_operation_iff x other,
  same_operation_iff op other,
  contains-remove_operation op other ops,
)

-- the answer for the permissions of a role
abbrev answer : Option (List Operation) → Operation → Access
answer none op = refused unknown_role
answer (some ops) op = if contains ops op then granted else refused no_permission

check_permission-answer :
    (s : RbacSystem) (role : Role) (op : Operation)
    → check_permission s role op ≡ answer (lookup role s.role_permissions) op
unfolding check_permission
check_permission-answer s role op = ground arith

-- The answers after the permissions of one role were replaced.
answer-insert :
    (s : RbacSystem) (role other : Role) (changed : List Operation) (wanted : Operation)
    → answer (lookup other (insert role changed s.role_permissions)) wanted ≡ (
        if same_role role other
        then answer (some changed) wanted
        else check_permission s other wanted)
unfolding Role-Eq
answer-insert s role other changed wanted =
    rw (lookup-insert role other changed s.role_permissions, check_permission-answer s other wanted)
      (ground arith)

-- Granting or taking away an operation of a known role changes the answer for that role and that
-- operation, and no other answer.
pub check_permission-add_remove :
    (s : RbacSystem) (role other : Role) (op wanted : Operation) (ops : List Operation)
    → lookup role s.role_permissions ≡ some ops
    → (check_permission (add_role_permission s role op) other wanted ≡ (
        if same_role role other && same_operation op wanted
        then granted
        else check_permission s other wanted))
      × (check_permission (remove_role_permission s role op) other wanted ≡ (
          if same_role role other && same_operation op wanted
          then refused no_permission
          else check_permission s other wanted))
unfolding add_role_permission remove_role_permission
check_permission-add_remove s role other op wanted ops known =
    elim (Bool-cases (same_role role other)) [
      | inl same ↦
          let same_known : lookup other s.role_permissions ≡ some ops =
            ap (λ r. lookup r s.role_permissions) (sym ((same_role_iff role other).0 same))
            ∙ known in
          let before : check_permission s other wanted ≡ answer (some ops) wanted =
            check_permission-answer s other wanted ∙ ap (λ o. answer o wanted) same_known in
          (
            after_add ∙ rw (same, before) (ground (arith, contains-insert_operation op wanted ops)),
            after_remove
                ∙ rw (same, before) (ground (arith, contains-remove_operation op wanted ops)),
          )
      | inr apart ↦ (after_add ∙ rw apart refl, after_remove ∙ rw apart refl)
    ]
  where
    after_add : check_permission (add_role_permission s role op) other wanted ≡ (
        if same_role role other
        then answer (some (insert_operation op ops)) wanted
        else check_permission s other wanted)
    after_add =
        check_permission-answer (add_role_permission s role op) other wanted
        ∙ rw (add_role_permission, known)
            (answer-insert s role other (insert_operation op ops) wanted)

    after_remove : check_permission (remove_role_permission s role op) other wanted ≡ (
        if same_role role other
        then answer (some (remove_operation op ops)) wanted
        else check_permission s other wanted)
    after_remove =
        check_permission-answer (remove_role_permission s role op) other wanted
        ∙ rw (remove_role_permission, known)
            (answer-insert s role other (remove_operation op ops) wanted)
