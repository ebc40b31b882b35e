-- ===== src/Log/Writer.antt =====
-- `WalWriter` of wal/writer.rs. The files are their numbers and bytes, in the order of their names; what
-- is written is in the file at once.
use ved_db_server.Prelude.{
  ℕ, suc, ◌%◌, max, Bool, true, false, Option, none, some, List, [], ◌∷◌, ◌++◌, ltb, leb, ◌==◌,
  if◌then◌else◌, length,
}
use ved_db_server.Prelude.Bytes.{add64, to_le_bytes, u32_mod}
use ved_db_server.Log.{Codec, WalEntry, Operation, corrupted_entry, new_entry, compute_checksum}
use ved_db_server.Log.Reader.{Event, entry, error, file_events}

pub record WalFile : Type 0 where
  pub number : ℕ
  pub bytes : List ℕ

-- the files before the current one, and the current one
pub record WalWriter : Type 0 where
  pub closed : List WalFile
  pub file : WalFile
  pub current_sequence : ℕ
  pub current_file_size : ℕ
  pub max_file_size : ℕ

unfoldable pub serialize_entry : Codec → WalEntry → List ℕ
serialize_entry c e =
    to_le_bytes 4 (length (c.encode e) % u32_mod) ++ (c.encode e ++ to_le_bytes 4 e.checksum)

unfoldable pub should_rotate : WalWriter → ℕ → Bool
should_rotate w next_entry_size = ltb w.max_file_size (add64 w.current_file_size next_entry_size)

unfoldable pub rotate_file : WalWriter → WalWriter
rotate_file w = record w {
  closed = w.closed ++ (w.file ∷ []);
  file = record { number = add64 w.file.number 1; bytes = [] };
  current_file_size = 0;
}

unfoldable pub write : WalWriter → List ℕ → WalWriter
write w bs = record w {
  file = record w.file { bytes = w.file.bytes ++ bs };
  current_file_size = add64 w.current_file_size (length bs);
}

-- the entry that is written
unfoldable pub sealed : Codec → WalEntry → WalEntry
sealed c e = record e { checksum = compute_checksum c e }

unfoldable pub append : Codec → ℕ → WalWriter → Operation → ℕ × WalWriter
append c now w operation =
    let bs = serialize_entry c (sealed c (new_entry now w.current_sequence operation)) in
    let counted : WalWriter = record w { current_sequence = add64 w.current_sequence 1 } in
    (
      w.current_sequence,
      if should_rotate counted (length bs)
          then write (rotate_file counted) bs
          else write counted bs,
    )

-- the greatest sequence number of a file, up to an error other than a corrupted entry
unfoldable pub max_sequence : ℕ → List Event → ℕ
max_sequence seen [] = seen
max_sequence seen (entry e ∷ es) = max_sequence (max seen e.sequence) es
max_sequence seen (error (corrupted_entry s) ∷ es) = max_sequence (max seen s) es
max_sequence seen (error why ∷ es) = seen

unfoldable pub scan_file_for_max_sequence : Codec → WalFile → ℕ
scan_file_for_max_sequence c f = max_sequence 0 (file_events c f.bytes)

-- the greatest sequence and file number of all files
unfoldable pub scan_files : Codec → List WalFile → ℕ × ℕ
scan_files c [] = (0, 0)
scan_files c (f ∷ fs) =
    let rest = scan_files c fs in (max (scan_file_for_max_sequence c f) rest.0, max f.number rest.1)

unfoldable pub scan_existing_wals : Codec → List WalFile → ℕ × ℕ
scan_existing_wals c fs =
    let found = scan_files c fs in (if ltb 0 found.0 then add64 found.0 1 else 0, found.1)

-- the file of a number, or an empty one, and the other files
unfoldable pub open_file : ℕ → List WalFile → List WalFile × WalFile
open_file n [] = ([], record { number = n; bytes = [] })
open_file n (f ∷ fs) =
    let rest = open_file n fs in if f.number == n then (fs, f) else (f ∷ rest.0, rest.1)

unfoldable pub new : Codec → ℕ → List WalFile → WalWriter
new c max_file_size fs =
    let scanned = scan_existing_wals c fs in
    let opened = open_file scanned.1 fs in
    record {
      closed = opened.0;
      file = opened.1;
      current_sequence = scanned.0;
      current_file_size = length opened.1.bytes;
      max_file_size = max_file_size;
    }

unfoldable pub all_files : WalWriter → List WalFile
all_files w = w.closed ++ (w.file ∷ [])

-- whether all sequence numbers of a file are lower; `none` when it cannot be read
unfoldable pub only_before : ℕ → List Event → Option Bool
only_before before_sequence [] = some true
only_before before_sequence (entry e ∷ es) =
    let rest = only_before before_sequence es in
    if leb before_sequence e.sequence then some false else rest
only_before before_sequence (error (corrupted_entry s) ∷ es) =
    let rest = only_before before_sequence es in if leb before_sequence s then some false else rest
only_before before_sequence (error why ∷ es) = none

unfoldable pub file_contains_only_entries_before : Codec → WalFile → ℕ → Option Bool
file_contains_only_entries_before c f before_sequence =
    only_before before_sequence (file_events c f.bytes)

-- a file that is removed is counted
unfoldable pub drop_or_keep : WalFile → Option Bool → ℕ × List WalFile → ℕ × List WalFile
drop_or_keep f (some true) (removed, fs) = (suc removed, fs)
drop_or_keep f (some false) (removed, fs) = (removed, f ∷ fs)
drop_or_keep f none (removed, fs) = (removed, f ∷ fs)

unfoldable pub compact_files : Codec → ℕ → ℕ → List WalFile → ℕ × List WalFile
compact_files c current before_sequence [] = (0, [])
compact_files c current before_sequence (f ∷ fs) =
    let rest = compact_files c current before_sequence fs in
    if leb current f.number
    then (rest.0, f ∷ rest.1)
    else drop_or_keep f (file_contains_only_entries_before c f before_sequence) rest

unfoldable pub compact : Codec → WalWriter → ℕ → ℕ × WalWriter
compact c w before_sequence =
    let done = compact_files c w.file.number before_sequence w.closed in
    (done.0, record w { closed = done.1 })
