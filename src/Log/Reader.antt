-- ===== src/Log/Reader.antt =====
-- `WalReader` of wal/reader.rs. A file is its bytes from the place of the reader on.
use ved_db_server.Prelude.{
  ℕ, zero, suc, ◌+◌, none, some, List, [], ◌∷◌, leb, if◌then◌else◌, length, take, drop,
}
use ved_db_server.Prelude.Bytes.{from_le_bytes}
use ved_db_server.Log.{
  Codec, WalEntry, WalError, io_error, deserialization_error, corrupted_entry, verify_checksum,
}

-- what `next_entry` answers, with the bytes after an entry that is whole
pub data Outcome : Type 0 where
  end_of_file : Outcome
  next : WalEntry → List ℕ → Outcome
  corrupted : ℕ → List ℕ → Outcome
  failed : WalError → Outcome

unfoldable pub checked : Codec → WalEntry → List ℕ → Outcome
checked c e rest = if verify_checksum c e then next e rest else corrupted e.sequence rest

-- an entry of some bytes, with its checksum after it
unfoldable pub read_entry : Codec → ℕ → List ℕ → Outcome
read_entry c len bs =
    if leb (len + 4) (length bs)
    then elim (c.decode (take len bs)) [
      | none ↦ failed deserialization_error
      | some e ↦
          checked c (record e { checksum = from_le_bytes (take 4 (drop len bs)) })
            (drop 4 (drop len bs))
    ]
    else failed io_error

unfoldable pub next_entry : Codec → List ℕ → Outcome
next_entry c bs =
    if leb 4 (length bs) then read_entry c (from_le_bytes (take 4 bs)) (drop 4 bs) else end_of_file

pub data Event : Type 0 where
  entry : WalEntry → Event
  error : WalError → Event

-- an answer before those on the bytes that are left
unfoldable pub events_after : (List ℕ → List Event) → Outcome → List Event
events_after later end_of_file = []
events_after later (next e rest) = entry e ∷ later rest
events_after later (corrupted s rest) = error (corrupted_entry s) ∷ later rest
events_after later (failed why) = error why ∷ []

-- The answers of `next_entry`, called until the end of the file or an error after which no caller
-- goes on; each entry takes 8 bytes at least.
unfoldable pub events : Codec → ℕ → List ℕ → List Event
events c zero bs = []
events c (suc fuel) bs = events_after (events c fuel) (next_entry c bs)

unfoldable pub file_events : Codec → List ℕ → List Event
file_events c bs = events c (suc (length bs)) bs
