-- ===== src/Log/Tests.antt =====
-- The theorem on the log at two operations, which go to two files.
use ved_db_server.Prelude.{ℕ, ◌≡◌, refl, none, some, List, [], ◌∷◌, map, arith, ◌==◌, if◌then◌else◌}
use ved_db_server.Log.{Codec, Operation, delete, drop_collection, new_entry, compute_checksum}
use ved_db_server.Log.Reader.{entry}
use ved_db_server.Log.Writer.{new, all_files, sealed}
use ved_db_server.Log.Contents.{log_events, append_all, entries_from, log_events-append_all}

abbrev two_operations : List (ℕ × Operation)
two_operations = (10, delete "people" (1 ∷ [])) ∷ (11, drop_collection "people") ∷ []

-- An entry is written as its number.
abbrev numbered : Codec
numbered = record {
  encode = λ e. e.sequence ∷ [];
  decode = λ bs. elim bs [
    | [] ↦ none
    | n ∷ ns ↦ some (
        if n == 0
        then record {
          sequence = 0;
          timestamp = 10;
          operation = delete "people" (1 ∷ []);
          checksum = 7;
        }
        else record {
          sequence = 1;
          timestamp = 11;
          operation = drop_collection "people";
          checksum = 7;
        })
  ];
  hash = λ bs. 7;
  encode_document = λ d. [];
  decode_document = λ bs. none;
  encode_schema = λ s. [];
  encode_index = λ i. [];
  id_text = λ id. "1";
}

log_events-append_all_example :
    log_events numbered (all_files (append_all numbered (new numbered 12 []) two_operations))
    ≡ map entry (entries_from numbered 0 two_operations)
unfolding entries_from sealed new_entry compute_checksum
log_events-append_all_example = log_events-append_all numbered 12 two_operations (
  record { decode-encode = refl; length-bounded = omega arith; checksum-bounded = omega arith },
  (
    record { decode-encode = refl; length-bounded = omega arith; checksum-bounded = omega arith },
    tt,
  ),
)
