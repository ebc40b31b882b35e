-- ===== src/Log.antt =====
-- The write-ahead log of veddb-core/src/wal: `WalEntry` and `Operation` of entry.rs.
pub mod Reader
pub mod Writer
pub mod Replay
pub mod Serialized
pub mod Contents
mod Tests
use ved_db_server.Prelude.{
  List, ℕ, zero, suc, ◌+◌, ◌-◌, ◌*◌, ◌/◌, ◌%◌, ◌^◌, ◌≤◌, ◌<◌, min, max, bit_and, bit_xor, ◌≡◌, refl,
  sym, ap, ap₂, subst, ◌∙◌, ◌≢◌, ◌↔◌, ◌⊎◌, inl, inr, Bool, true, false, not, ◌&&◌, ◌||◌, Option,
  none, some, [], ◌∷◌, ◌++◌, map, arith, ltb, leb, ◌==◌, if◌then◌else◌, ltb→lt, lt→ltb, leb→le,
  le→leb, ==_iff, Bool-cases, Option-cases, length, get_elem?, get_or, set, take, drop, replicate,
  All, length-append, length-replicate, length-set, get_or-set_self, get_or-set_ne, get_or-set,
  get_or-replicate, take-append_length, length-drop, All-append, All-drop,
}
use Prim.Native.String.{String}
use ved_db_server.Document.{Value, Document}
use ved_db_server.Schema.{Definitions}
use ved_db_server.Index.Manager.{IndexDefinition}

pub data Operation : Type 0 where
  insert : (collection : String) (doc : Document) → Operation
  update : (collection : String) (id : List ℕ) (changes : List (String × Value)) → Operation
  delete : (collection : String) (id : List ℕ) → Operation
  create_collection : (name : String) (schema : Definitions) → Operation
  drop_collection : (name : String) → Operation
  create_index : (collection : String) (index : IndexDefinition) → Operation
  drop_index : (collection index_name : String) → Operation

pub record WalEntry : Type 0 where
  pub sequence : ℕ
  pub timestamp : ℕ
  pub operation : Operation
  pub checksum : ℕ

pub data WalError : Type 0 where
  io_error deserialization_error : WalError
  corrupted_entry : ℕ → WalError

-- The texts of the JSON package for entries, documents, schemas and indexes, the checksum of the CRC32
-- package, and the text of an identifier.
pub record Codec : Type 0 where
  pub encode : WalEntry → List ℕ
  pub decode : List ℕ → Option WalEntry
  pub hash : List ℕ → ℕ
  pub encode_document : Document → List ℕ
  pub decode_document : List ℕ → Option Document
  pub encode_schema : Definitions → List ℕ
  pub encode_index : IndexDefinition → List ℕ
  pub id_text : List ℕ → String

-- An entry that is read as it was written; its length and its checksum are 32-bit numbers.
pub record IsWritten (c : Codec) (e : WalEntry) : Type 0 where
  pub decode-encode : c.decode (c.encode e) ≡ some e
  pub length-bounded : length (c.encode e) < 256 ^ 4
  pub checksum-bounded : e.checksum < 256 ^ 4

unfoldable pub new_entry : ℕ → ℕ → Operation → WalEntry
new_entry now sequence operation = record {
  sequence = sequence;
  timestamp = now;
  operation = operation;
  checksum = 0;
}

unfoldable pub compute_checksum : Codec → WalEntry → ℕ
compute_checksum c e = c.hash (c.encode (record e { checksum = 0 }))

unfoldable pub verify_checksum : Codec → WalEntry → Bool
verify_checksum c e = compute_checksum c e == e.checksum
