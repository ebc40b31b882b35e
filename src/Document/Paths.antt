-- ===== src/Document/Paths.antt =====
-- What `set_by_path` and `get_by_path` of document.rs do to each other.
use ved_db_server.Prelude.{
  ℕ, ◌≡◌, refl, sym, ap, subst, ◌∙◌, ◌⊎◌, inl, inr, true, false, none, some, List, [], ◌∷◌, arith,
  Bool-cases, Option-cases,
}
use Prim.Native.String.{String}
use ved_db_server.Prelude.Bytes.{add64}
use ved_db_server.Prelude.Maps.{String-Eq}
use ved_db_server.Document.{
  Value, Fields, null, bool, int32, int64, float64, string, binary, array, object, object_id,
  date_time, no_fields, Document, find, put, step_into, walk, as_object, get_by_path_parts,
  entry_or_object, set_by_path_parts, split_dot, get_by_path, set_by_path, update_metadata,
  fields_size, invalid_path,
}
use ved_db_server.Document.Lookup.{find-put_self, put-find}

-- A value read back by a path of several parts is read in the object under the first part.
get_by_path_parts-put_object :
    (part next : String) (parts : List String) (inner fs : Fields)
    → get_by_path_parts (put part (object inner) fs) (part ∷ next ∷ parts)
      ≡ get_by_path_parts inner (next ∷ parts)
unfolding get_by_path_parts walk step_into
get_by_path_parts-put_object part next parts inner fs =
    rw (get_by_path_parts, find-put_self part (object inner) fs) refl

-- The call on a path of several parts, when it can go into the entry and when it cannot.
set_by_path_parts-into :
    (fs inner : Fields) (part next : String) (parts : List String) (v : Value)
    → as_object (entry_or_object part fs) ≡ some inner
    → set_by_path_parts fs (part ∷ next ∷ parts) v ≡ (
      (set_by_path_parts inner (next ∷ parts) v).0,
      put part (object (set_by_path_parts inner (next ∷ parts) v).1) fs,
    )
unfolding set_by_path_parts
set_by_path_parts-into fs inner part next parts v e = rw (set_by_path_parts, e) refl

set_by_path_parts-blocked :
    (fs : Fields) (part next : String) (parts : List String) (v : Value)
    → as_object (entry_or_object part fs) ≡ none
    → set_by_path_parts fs (part ∷ next ∷ parts) v ≡ (false, put part (entry_or_object part fs) fs)
unfolding set_by_path_parts
set_by_path_parts-blocked fs part next parts v e = rw (set_by_path_parts, e) refl

-- A path that was set reads back the value.
pub get_by_path_parts-set :
    (fs : Fields) (parts : List String) (v : Value)
    → (set_by_path_parts fs parts v).0 ≡ true
    → get_by_path_parts (set_by_path_parts fs parts v).1 parts ≡ some v
unfolding set_by_path_parts get_by_path_parts walk
get_by_path_parts-set fs [] v done = absurd (ground arith)
get_by_path_parts-set fs (part ∷ []) v done =
    rw (set_by_path_parts, get_by_path_parts, find-put_self part v fs, walk) refl
get_by_path_parts-set fs (part ∷ next ∷ parts) v done =
    elim (Option-cases (as_object (entry_or_object part fs))) [
      | inl blocked ↦
          absurd (ground (arith, set_by_path_parts-blocked fs part next parts v blocked))
      | inr (inner, into) ↦
          let call = set_by_path_parts-into fs inner part next parts v into in
          rw
            (
              call,
              get_by_path_parts-put_object part next parts
                  (set_by_path_parts inner (next ∷ parts) v).1 fs,
            )
            (get_by_path_parts-set inner (next ∷ parts) v (sym (ap (λ r. r.0) call) ∙ done))
    ]

-- A path into no fields at all is always set.
set_by_path_parts-empty :
    (part : String) (parts : List String) (v : Value)
    → (set_by_path_parts no_fields (part ∷ parts) v).0 ≡ true
unfolding set_by_path_parts entry_or_object find as_object
set_by_path_parts-empty part [] v = refl
set_by_path_parts-empty part (next ∷ parts) v = set_by_path_parts-empty next parts v

as_object-object : (w : Value) (inner : Fields) → as_object w ≡ some inner → w ≡ object inner
unfolding as_object
as_object-object null inner e = absurd (ground arith)
as_object-object (bool b) inner e = absurd (ground arith)
as_object-object (int32 i) inner e = absurd (ground arith)
as_object-object (int64 i) inner e = absurd (ground arith)
as_object-object (float64 f) inner e = absurd (ground arith)
as_object-object (string t) inner e = absurd (ground arith)
as_object-object (binary b) inner e = absurd (ground arith)
as_object-object (array vs) inner e = absurd (ground arith)
as_object-object (object fs) inner e = ground (arith, e)
as_object-object (object_id i) inner e = absurd (ground arith)
as_object-object (date_time t) inner e = absurd (ground arith)

-- An entry that cannot be gone into is there already.
put-entry_or_object :
    (part : String) (fs : Fields)
    → as_object (entry_or_object part fs) ≡ none
    → put part (entry_or_object part fs) fs ≡ fs
unfolding entry_or_object as_object
put-entry_or_object part fs blocked = elim (Option-cases (find part fs)) [
  | inl missing ↦ absurd (ground (arith, missing))
  | inr (w, there) ↦ rw (entry_or_object, there) (put-find part w fs there)
]

-- An entry that was made can be gone into, so one in which a path is refused is there already.
put-refused_object :
    (part next : String) (parts : List String) (v : Value) (inner fs : Fields)
    → as_object (entry_or_object part fs) ≡ some inner
    → (set_by_path_parts inner (next ∷ parts) v).0 ≡ false
    → put part (object inner) fs ≡ fs
unfolding entry_or_object as_object
put-refused_object part next parts v inner fs into refused = elim (Option-cases (find part fs)) [
  | inl missing ↦
      let made : no_fields ≡ inner = ground (arith, missing, into) in
      let accepted : (set_by_path_parts inner (next ∷ parts) v).0 ≡ true =
        subst (λ x. (set_by_path_parts x (next ∷ parts) v).0 ≡ true) made
          (set_by_path_parts-empty next parts v) in
      absurd (ground arith)
  | inr (w, there) ↦
      let holds : as_object w ≡ some inner = ground (arith, there, into) in
      put-find part (object inner) fs (there ∙ ap some (as_object-object w inner holds))
]

-- A path that is refused leaves the fields as they were.
pub set_by_path_parts-refused :
    (fs : Fields) (parts : List String) (v : Value)
    → (set_by_path_parts fs parts v).0 ≡ false
    → (set_by_path_parts fs parts v).1 ≡ fs
unfolding set_by_path_parts
set_by_path_parts-refused fs [] v refused = refl
set_by_path_parts-refused fs (part ∷ []) v refused = absurd (ground arith)
set_by_path_parts-refused fs (part ∷ next ∷ parts) v refused =
    elim (Option-cases (as_object (entry_or_object part fs))) [
      | inl blocked ↦
          rw (set_by_path_parts-blocked fs part next parts v blocked)
            (put-entry_or_object part fs blocked)
      | inr (inner, into) ↦
          let call = set_by_path_parts-into fs inner part next parts v into in
          let deeper : (set_by_path_parts inner (next ∷ parts) v).0 ≡ false =
            sym (ap (λ r. r.0) call) ∙ refused in
          rw (call, set_by_path_parts-refused inner (next ∷ parts) v deeper)
            (put-refused_object part next parts v inner fs into deeper)
    ]

-- The document that a refused `set_by_path` leaves is the old one, and one that it does not refuse
-- reads the value back, has the size of its fields and counts a version.
pub get_by_path-set_by_path :
    (now : ℕ) (d : Document) (path : String) (v : Value)
    → let r = set_by_path now d path v in
      ((r.0 ≡ some invalid_path) × (r.1 ≡ d))
      ⊎ ((r.0 ≡ none)
          × (get_by_path r.1 path ≡ some v)
          × (r.1.metadata.size_bytes ≡ fields_size r.1.fields)
          × (r.1.metadata.version ≡ add64 d.metadata.version 1))
unfolding set_by_path get_by_path update_metadata
get_by_path-set_by_path now d path v =
    let parts = split_dot String.[] path in
    elim (Bool-cases (set_by_path_parts d.fields parts v).0) [
      | inl accepted ↦
          rw accepted (inr (refl, get_by_path_parts-set d.fields parts v accepted, refl, refl))
      | inr refused ↦
          rw (refused, set_by_path_parts-refused d.fields parts v refused) (inl (refl, refl))
    ]
