-- ===== src/Schema/Defaults.antt =====
-- What `apply_defaults` of schema.rs does to the fields of a document.
use ved_db_server.Prelude.{ℕ, ◌≡◌, refl, ap, ◌∙◌, Option, none, some, arith, if◌then◌else◌}
use Prim.Native.String.{String}
use ved_db_server.Prelude.Maps.{String-Eq}
use ved_db_server.Document.{Value, Document, find, insert, update_metadata}
use ved_db_server.Document.Lookup.{find-put}
use ved_db_server.Schema.{
  Definitions, no_definitions, definition, default_value, fill_default, apply_defaults,
}

unfoldable pub first_some : Option Value → Option Value → Option Value
first_some none other = other
first_some (some v) other = some v

-- the first default of a name
unfoldable pub default_of : String → Definitions → Option Value
default_of j no_definitions = none
default_of j (definition k f ds) =
    if String-Eq.same k j then first_some (default_value f) (default_of j ds) else default_of j ds

pub first_some-none : (o : Option Value) → first_some o none ≡ o
unfolding first_some
first_some-none none = refl
first_some-none (some v) = refl

fill_default-cases :
    (now : ℕ) (k j : String) (o default : Option Value) (d : Document)
    → find k d.fields ≡ o
    → find j (fill_default now k o default d).fields
      ≡ first_some (find j d.fields) (if String-Eq.same k j then default else none)
unfolding fill_default first_some insert update_metadata
fill_default-cases now k j (some v) default d there =
    ground (arith, String-Eq.same_iff k j, there, first_some-none (find j d.fields))
fill_default-cases now k j none none d missing = ground (arith, first_some-none (find j d.fields))
fill_default-cases now k j none (some w) d missing = ground (
  arith,
  String-Eq.same_iff k j,
  missing,
  find-put k j w d.fields,
  first_some-none (find j d.fields),
)

pub get-fill_default :
    (now : ℕ) (k j : String) (default : Option Value) (d : Document)
    → find j (fill_default now k (find k d.fields) default d).fields
      ≡ first_some (find j d.fields) (if String-Eq.same k j then default else none)
get-fill_default now k j default d = fill_default-cases now k j (find k d.fields) default d refl

first_some_assoc :
    (a b c : Option Value) → first_some (first_some a b) c ≡ first_some a (first_some b c)
unfolding first_some
first_some_assoc none b c = refl
first_some_assoc (some v) b c = refl

-- After the defaults are applied, a field has the value that it had, or else the first default that
-- the schema has for its name, or else none.
pub get-apply_defaults :
    (now : ℕ) (ds : Definitions) (d : Document) (j : String)
    → find j (apply_defaults now ds d).fields ≡ first_some (find j d.fields) (default_of j ds)
unfolding apply_defaults default_of first_some
get-apply_defaults now no_definitions d j = ground arith
get-apply_defaults now (definition k f ds) d j =
    let filled = fill_default now k (find k d.fields) (default_value f) d in
    get-apply_defaults now ds filled j
    ∙ ap (λ v. first_some v (default_of j ds)) (get-fill_default now k j (default_value f) d)
    ∙ first_some_assoc (find j d.fields) (if String-Eq.same k j then default_value f else none)
        (default_of j ds)
    ∙ ap (first_some (find j d.fields)) (ground arith)
