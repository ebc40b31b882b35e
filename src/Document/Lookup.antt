-- ===== src/Document/Lookup.antt =====
-- Laws of the fields of an object: what `put` and `delete` do to `find`.
use ved_db_server.Prelude.{◌≡◌, refl, ap, inl, inr, none, some, arith, if◌then◌else◌, Bool-cases}
use Prim.Native.String.{String}
use ved_db_server.Prelude.Maps.{String-Eq, same_refl}
use ved_db_server.Document.{Value, Fields, no_fields, field, find, put, delete}

pub find-put :
    (k j : String) (v : Value) (fs : Fields)
    → find j (put k v fs) ≡ (if String-Eq.same k j then some v else find j fs)
unfolding find put
find-put k j v no_fields = refl
find-put k j v (field i w fs) = ground (
  arith,
  String-Eq.same_iff k j,
  String-Eq.same_iff i k,
  String-Eq.same_iff i j,
  find-put k j v fs,
)

pub find-put_self : (k : String) (v : Value) (fs : Fields) → find k (put k v fs) ≡ some v
find-put_self k v fs = rw (find-put k k v fs, same_refl k) refl

pub find-delete :
    (k j : String) (fs : Fields)
    → find j (delete k fs) ≡ (if String-Eq.same k j then none else find j fs)
unfolding find delete
find-delete k j no_fields = ground arith
find-delete k j (field i w fs) = ground (
  arith,
  String-Eq.same_iff k j,
  String-Eq.same_iff i k,
  String-Eq.same_iff i j,
  find-delete k j fs,
)

-- Writing back the value that is there changes nothing.
pub put-find : (k : String) (v : Value) (fs : Fields) → find k fs ≡ some v → put k v fs ≡ fs
unfolding find put
put-find k v no_fields e = absurd (ground arith)
put-find k v (field j w fs) e = elim (Bool-cases (String-Eq.same j k)) [
  | inl here ↦ let same_value : v ≡ w = ground arith in rw here (ap (λ x. field j x fs) same_value)
  | inr there ↦ rw there (ap (field j w) (put-find k v fs (ground arith)))
]
