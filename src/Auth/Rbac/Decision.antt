-- ===== src/Auth/Rbac/Decision.antt =====
-- What the loops of `check_resource_permission` in auth/rbac.rs decide.
use ved_db_server.Prelude.{
  ◌≡◌, refl, sym, ap, ◌∙◌, Bool, true, false, not, ◌&&◌, ◌||◌, some, List, [], ◌∷◌, arith,
  if◌then◌else◌,
}
use mathlib.Core.List.{Permᴰ, Perm}
use mathlib.Core.Bool.{Bool-set}
use mathlib.Core.Logic.{∥∥₁_elim}
use ved_db_server.Auth.Rbac.{
  Resource, Permission, AclEntry, RbacSystem, Access, Flags, granted, refused, denied_by_acl,
  no_explicit_permission, matches, permission_loop, entry_loop, after_loop, no_flags, find_acl,
  check_permission, check_acl, check_resource_permission,
}
use Prim.Native.String.{String}
use ved_db_server.Auth.Operations.{Operation, same_operation, Role}

-- some element passes the test
unfoldable pub any {ℓ} : {A : Type ℓ} → (A → Bool) → List A → Bool
any p [] = false
any p (x ∷ xs) = p x || any p xs

-- a permission for the operation stands in the entry
unfoldable pub mentions : Operation → AclEntry → Bool
mentions op e = any (λ p. same_operation p.operation op) e.permissions

-- The entry denies the user the operation, or allows it.
unfoldable pub denies : String → Role → Operation → AclEntry → Bool
denies username role op e = matches username role e && e.deny && mentions op e

unfoldable pub allows : String → Role → Operation → AclEntry → Bool
allows username role op e = matches username role e && not e.deny && mentions op e

permission_loop-eq :
    (op : Operation) (deny : Bool) (ps : List Permission) (f : Flags)
    → permission_loop op deny ps f ≡ record f {
      allowed = f.allowed || (not deny && any (λ p. same_operation p.operation op) ps);
      denied = f.denied || (deny && any (λ p. same_operation p.operation op) ps);
    }
unfolding permission_loop any
permission_loop-eq op deny [] f = ground arith
permission_loop-eq op deny (p ∷ ps) f = permission_loop-eq op deny ps _ ∙ ground arith

entry_loop-eq :
    (username : String) (role : Role) (op : Operation) (es : List AclEntry) (f : Flags)
    → entry_loop username role op es f ≡ record {
      allowed = f.allowed || any (allows username role op) es;
      denied = f.denied || any (denies username role op) es;
      has_matching_entry = f.has_matching_entry || any (matches username role) es;
    }
unfolding entry_loop any allows denies mentions
entry_loop-eq username role op [] f = ground arith
entry_loop-eq username role op (e ∷ es) f =
    entry_loop-eq username role op es _
    ∙ ground
        (arith, permission_loop-eq op e.deny e.permissions (record f { has_matching_entry = true }))

-- What an access list decides for a user who has the role and asks for the operation.
abbrev pub acl_answer : String → Role → Operation → List AclEntry → Access
acl_answer username role op es =
    if any (denies username role op) es
    then refused denied_by_acl
    else if any (matches username role) es && not (any (allows username role op) es)
    then refused no_explicit_permission
    else granted

after_loop-eq :
    (username : String) (role : Role) (op : Operation) (es : List AclEntry)
    → after_loop (entry_loop username role op es no_flags) ≡ acl_answer username role op es
unfolding after_loop
after_loop-eq username role op es =
    ap after_loop (entry_loop-eq username role op es no_flags) ∙ ground arith

-- Where the role may do the operation and the resource has an access list: an entry for the user or
-- the role that denies the operation refuses it, whatever other entries allow; else, if any entry
-- is for the user or the role, one of them must allow the operation; else the role's permission
-- is enough.
pub check_resource_permission-acl :
    (s : RbacSystem) (username : String) (role : Role) (op : Operation) (r : Resource)
    (es : List AclEntry)
    → check_permission s role op ≡ granted
    → find_acl r s.resource_acls ≡ some es
    → check_resource_permission s username role op r ≡ acl_answer username role op es
unfolding check_resource_permission check_acl
check_resource_permission-acl s username role op r es e f =
    rw (check_resource_permission, e, check_acl, f) (after_loop-eq username role op es)

-- A resource without an access list is guarded by the role alone, and no access list gives a user
-- more than the role has.
pub check_resource_permission-role :
    (s : RbacSystem) (username : String) (role : Role) (op : Operation) (r : Resource)
    → check_resource_permission s username role op r ≡ granted
    → check_permission s role op ≡ granted
unfolding check_resource_permission
check_resource_permission-role s username role op r e = ground arith

any-Permᴰ {ℓ} : {A : Type ℓ} (p : A → Bool) (xs ys : List A) → Permᴰ xs ys → any p xs ≡ any p ys
unfolding any
any-Permᴰ p xs ys Permᴰ.nil = refl
any-Permᴰ p (a ∷ xs) (b ∷ ys) (Permᴰ.cons e q) = rw (e, any-Permᴰ p xs ys q) refl
any-Permᴰ p (a ∷ b ∷ xs) (b' ∷ a' ∷ ys) (Permᴰ.swap e f) = ground (arith, ap p e, ap p f)
any-Permᴰ p xs ys (Permᴰ.trans {l₂ = zs} q r) = any-Permᴰ p xs zs q ∙ any-Permᴰ p zs ys r

any-Perm {ℓ} : {A : Type ℓ} (p : A → Bool) (xs ys : List A) → Perm xs ys → any p xs ≡ any p ys
any-Perm p xs ys q = ∥∥₁_elim q (Bool-set _ _) (any-Permᴰ p xs ys)

-- The order in which the entries of an access list were added does not matter.
pub after_loop-Perm :
    (username : String) (role : Role) (op : Operation) (es es' : List AclEntry)
    → Perm es es'
    → after_loop (entry_loop username role op es no_flags)
      ≡ after_loop (entry_loop username role op es' no_flags)
after_loop-Perm username role op es es' q =
    after_loop-eq username role op es
    ∙ rw
        (
          any-Perm (denies username role op) es es' q,
          any-Perm (matches username role) es es' q,
          any-Perm (allows username role op) es es' q,
        )
        (sym (after_loop-eq username role op es'))
