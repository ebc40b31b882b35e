-- ===== src/Auth/Operations/Names.antt =====
-- That the names of auth/rbac.rs and auth/user.rs read back, and equality of operations and roles.
use ved_db_server.Prelude.{
  ℕ, zero, suc, ◌≡◌, refl, sym, ap, ◌∙◌, ◌↔◌, inl, inr, Bool, true, ◌&&◌, some, List, [], ◌∷◌,
  arith, ==_iff, Bool-cases, get_elem?,
}
use Prim.Native.String.{String}
use ved_db_server.Prelude.Maps.{Eq, lookup, String-Eq}
use ved_db_server.Auth.Operations
use ved_db_server.Auth.Operations.{
  Operation, as_str, operation_arms, from_str, operation_number, same_operation, Role, role_str,
  role_arms, role_from_str, same_role,
}

-- Every arm of a match names its value.
arms_named {ℓ} : {A : Type ℓ} → (A → String) → List (String × A) → Bool
arms_named name [] = true
arms_named name ((s, x) ∷ arms) = String-Eq.same (name x) s && arms_named name arms

lookup-name {ℓ} :
    {A : Type ℓ} (name : A → String) (s : String) (arms : List (String × A)) (x : A)
    → arms_named name arms ≡ true
    → lookup s arms ≡ some x
    → name x ≡ s
unfolding arms_named lookup String-Eq
lookup-name name s [] x agree e = absurd (ground arith)
lookup-name name s ((n, y) ∷ arms) x agree e = elim (Bool-cases (String-Eq.same n s)) [
  | inl here ↦
      let same_value : y ≡ x = ground arith in
      let named : String-Eq.same (name y) n ≡ true = ground arith in
      ap name (sym same_value)
      ∙ (String-Eq.same_iff (name y) n).0 named
      ∙ (String-Eq.same_iff n s).0 here
  | inr there ↦ lookup-name name s arms x (ground arith) (ground arith)
]

operation_arms_named : arms_named as_str operation_arms ≡ true
unfolding arms_named as_str String-Eq
operation_arms_named = refl

role_arms_named : arms_named role_str role_arms ≡ true
unfolding arms_named role_str String-Eq
role_arms_named = refl

from_str-as_str : (op : Operation) → from_str (as_str op) ≡ some op
unfolding from_str as_str
from_str-as_str Operations.read = refl
from_str-as_str Operations.write = refl
from_str-as_str Operations.delete = refl
from_str-as_str Operations.create_collection = refl
from_str-as_str Operations.drop_collection = refl
from_str-as_str Operations.list_collections = refl
from_str-as_str Operations.create_index = refl
from_str-as_str Operations.drop_index = refl
from_str-as_str Operations.list_indexes = refl
from_str-as_str Operations.create_user = refl
from_str-as_str Operations.update_user = refl
from_str-as_str Operations.delete_user = refl
from_str-as_str Operations.list_users = refl
from_str-as_str Operations.change_password = refl
from_str-as_str Operations.backup = refl
from_str-as_str Operations.restore = refl
from_str-as_str Operations.view_metrics = refl
from_str-as_str Operations.view_logs = refl
from_str-as_str Operations.configure_server = refl
from_str-as_str Operations.subscribe = refl
from_str-as_str Operations.publish = refl
from_str-as_str Operations.flush_cache = refl
from_str-as_str Operations.view_cache_stats = refl
from_str-as_str Operations.configure_replication = refl
from_str-as_str Operations.view_replication_status = refl

-- A text is read as an operation exactly if it is that operation's name; so no two share a name.
pub from_str_iff : (s : String) (op : Operation) → (from_str s ≡ some op) ↔ (as_str op ≡ s)
unfolding from_str
from_str_iff s op = (
  λ e. lookup-name as_str s operation_arms op operation_arms_named e,
  λ e. ap from_str (sym e) ∙ from_str-as_str op,
)

-- the operations, by their number
abbrev pub numbered : List Operation
numbered =
    Operations.read ∷ Operations.write ∷ Operations.delete ∷ Operations.create_collection
    ∷ Operations.drop_collection ∷ Operations.list_collections ∷ Operations.create_index
    ∷ Operations.drop_index ∷ Operations.list_indexes ∷ Operations.create_user
    ∷ Operations.update_user ∷ Operations.delete_user ∷ Operations.list_users
    ∷ Operations.change_password ∷ Operations.backup ∷ Operations.restore ∷ Operations.view_metrics
    ∷ Operations.view_logs ∷ Operations.configure_server ∷ Operations.subscribe ∷ Operations.publish
    ∷ Operations.flush_cache ∷ Operations.view_cache_stats ∷ Operations.configure_replication
    ∷ Operations.view_replication_status ∷ []

get_elem?-operation_number : (op : Operation) → get_elem? numbered (operation_number op) ≡ some op
unfolding operation_number
get_elem?-operation_number Operations.read = refl
get_elem?-operation_number Operations.write = refl
get_elem?-operation_number Operations.delete = refl
get_elem?-operation_number Operations.create_collection = refl
get_elem?-operation_number Operations.drop_collection = refl
get_elem?-operation_number Operations.list_collections = refl
get_elem?-operation_number Operations.create_index = refl
get_elem?-operation_number Operations.drop_index = refl
get_elem?-operation_number Operations.list_indexes = refl
get_elem?-operation_number Operations.create_user = refl
get_elem?-operation_number Operations.update_user = refl
get_elem?-operation_number Operations.delete_user = refl
get_elem?-operation_number Operations.list_users = refl
get_elem?-operation_number Operations.change_password = refl
get_elem?-operation_number Operations.backup = refl
get_elem?-operation_number Operations.restore = refl
get_elem?-operation_number Operations.view_metrics = refl
get_elem?-operation_number Operations.view_logs = refl
get_elem?-operation_number Operations.configure_server = refl
get_elem?-operation_number Operations.subscribe = refl
get_elem?-operation_number Operations.publish = refl
get_elem?-operation_number Operations.flush_cache = refl
get_elem?-operation_number Operations.view_cache_stats = refl
get_elem?-operation_number Operations.configure_replication = refl
get_elem?-operation_number Operations.view_replication_status = refl

unfoldable pub every {ℓ} : {A : Type ℓ} → (A → Bool) → List A → Bool
every p [] = true
every p (x ∷ xs) = p x && every p xs

every-get_elem? {ℓ} :
    {A : Type ℓ} (p : A → Bool) (xs : List A) (i : ℕ) (x : A)
    → every p xs ≡ true
    → get_elem? xs i ≡ some x
    → p x ≡ true
unfolding every
every-get_elem? p [] i x h e = absurd (ground arith)
every-get_elem? p (y ∷ xs) zero x h e =
    let same_value : y ≡ x = ground arith in ap p (sym same_value) ∙ ground arith
every-get_elem? p (y ∷ xs) (suc i) x h e = every-get_elem? p xs i x (ground arith) e

-- A test that all the listed operations pass is passed by every operation.
pub every_operation :
    (p : Operation → Bool) → every p numbered ≡ true → (op : Operation) → p op ≡ true
every_operation p h op =
    every-get_elem? p numbered (operation_number op) op h (get_elem?-operation_number op)

operation_number-injective : (a b : Operation) → operation_number a ≡ operation_number b → a ≡ b
operation_number-injective a b e =
    let both : some a ≡ some b =
      sym (get_elem?-operation_number a)
      ∙ ap (get_elem? numbered) e
      ∙ get_elem?-operation_number b in
    ground arith

pub same_operation_iff : (a b : Operation) → (same_operation a b ≡ true) ↔ (a ≡ b)
unfolding same_operation
same_operation_iff a b = (
  λ e. operation_number-injective a b ((==_iff (operation_number a) (operation_number b)).0 e),
  λ e. (==_iff (operation_number a) (operation_number b)).1 (ap operation_number e),
)

pub same_role_iff : (a b : Role) → (same_role a b ≡ true) ↔ (a ≡ b)
unfolding same_role
same_role_iff a b = ground arith

instance unfoldable pub Operation-Eq : Eq Operation
Operation-Eq = record { same = same_operation; same_iff = same_operation_iff }

instance unfoldable pub Role-Eq : Eq Role
Role-Eq = record { same = same_role; same_iff = same_role_iff }
