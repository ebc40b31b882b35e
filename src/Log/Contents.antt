-- ===== src/Log/Contents.antt =====
-- What the reader of wal/reader.rs finds in the files that the writer of wal/writer.rs wrote.
use ved_db_server.Prelude.{
  ℕ, ◌≡◌, refl, sym, ap, ap₂, subst, ◌∙◌, Bool, true, false, [], ◌∷◌, ◌++◌, map, arith,
  if◌then◌else◌, ==_iff, length, All, All-append,
}
use mathlib.Core.List.{List, append-nil, append_assoc}
use ved_db_server.Prelude.Bytes.{add64}
use ved_db_server.Log.{
  Codec, IsWritten, WalEntry, Operation, new_entry, compute_checksum, verify_checksum,
}
use ved_db_server.Log.Reader.{Event, entry, file_events}
use ved_db_server.Log.Writer.{
  WalFile, WalWriter, serialize_entry, sealed, append, write, rotate_file, should_rotate, new,
  all_files, scan_files, scan_existing_wals, open_file,
}
use ved_db_server.Log.Serialized.{
  serialize_all, are_sealed, serialize_all-append, are_sealed-append, file_events-serialize,
}

-- the answers of a reader on one file after the other
unfoldable pub log_events : Codec → List WalFile → List Event
log_events c [] = []
log_events c (f ∷ fs) = file_events c f.bytes ++ log_events c fs

-- a writer after some operations, each at its time
unfoldable pub append_all : Codec → WalWriter → List (ℕ × Operation) → WalWriter
append_all c w [] = w
append_all c w ((now, operation) ∷ ops) = append_all c (append c now w operation).1 ops

-- the entries of operations, numbered from a sequence number on, with their checksums
unfoldable pub entries_from : Codec → ℕ → List (ℕ × Operation) → List WalEntry
entries_from c sequence [] = []
entries_from c sequence ((now, operation) ∷ ops) =
    sealed c (new_entry now sequence operation) ∷ entries_from c (add64 sequence 1) ops

log_events-append :
    (c : Codec) (fs gs : List WalFile)
    → log_events c (fs ++ gs) ≡ log_events c fs ++ log_events c gs
unfolding log_events
log_events-append c [] gs = refl
log_events-append c (f ∷ fs) gs =
    ap (λ es. file_events c f.bytes ++ es) (log_events-append c fs gs)
    ∙ sym (append_assoc (file_events c f.bytes) (log_events c fs) (log_events c gs))

verify_checksum-sealed : (c : Codec) (e : WalEntry) → verify_checksum c (sealed c e) ≡ true
unfolding verify_checksum sealed compute_checksum
verify_checksum-sealed c e = (==_iff (compute_checksum c e) (compute_checksum c e)).1 refl

map-append : (xs ys : List WalEntry) → map entry (xs ++ ys) ≡ map entry xs ++ map entry ys
map-append [] ys = refl
map-append (x ∷ xs) ys = ap (◌∷◌ (entry x)) (map-append xs ys)

module _ (c : Codec) where
  -- A writer whose files hold these entries: those of the files before the current one, and those of the
  -- current one, which are whole.
  data IsLog (w : WalWriter) (es : List WalEntry) : Type 0 where
    holds :
        (before last : List WalEntry)
        → log_events c w.closed ≡ map entry before
        → w.file.bytes ≡ serialize_all c last
        → All (IsWritten c) last
        → are_sealed c last ≡ true
        → es ≡ before ++ last
        → IsLog w es

  IsLog-read :
      (w : WalWriter) (es : List WalEntry) → IsLog w es → log_events c (all_files w) ≡ map entry es
  unfolding all_files log_events
  IsLog-read w es (holds before last closed file good own split) =
      log_events-append c w.closed (w.file ∷ [])
      ∙ ap₂ (λ xs ys. xs ++ ys) closed
          (append-nil (file_events c w.file.bytes)
            ∙ ap (file_events c) file
            ∙ file_events-serialize c last good own)
      ∙ sym (map-append before last)
      ∙ ap (map entry) (sym split)

  write-IsLog :
      (w : WalWriter) (es : List WalEntry) (e : WalEntry)
      → IsWritten c e
      → verify_checksum c e ≡ true
      → IsLog w es
      → IsLog (write w (serialize_entry c e)) (es ++ (e ∷ []))
  unfolding write serialize_all are_sealed
  write-IsLog w es e fine mine (holds before last closed file good own split) =
      holds before (last ++ (e ∷ [])) closed
        (ap (λ bs. bs ++ serialize_entry c e) file
          ∙ ap (λ bs. serialize_all c last ++ bs) (sym (append-nil (serialize_entry c e)))
          ∙ sym (serialize_all-append c last (e ∷ [])))
        (All-append (IsWritten c) last (e ∷ []) good (fine, tt))
        (are_sealed-append c last (e ∷ []) own (rw (are_sealed, mine) refl))
        (ap (λ xs. xs ++ (e ∷ [])) split ∙ append_assoc before last (e ∷ []))

  rotate_file-IsLog : (w : WalWriter) (es : List WalEntry) → IsLog w es → IsLog (rotate_file w) es
  unfolding rotate_file serialize_all are_sealed all_files
  rotate_file-IsLog w es (holds before last closed file good own split) =
      holds es [] (IsLog-read w es (holds before last closed file good own split)) refl tt refl
        (sym (append-nil es))

  count-IsLog :
      (w : WalWriter) (es : List WalEntry) (n : ℕ)
      → IsLog w es
      → IsLog (record w { current_sequence = n }) es
  count-IsLog w es n (holds before last closed file good own split) =
      holds before last closed file good own split

  either-IsLog :
      (b : Bool) (x y : WalWriter) (es : List WalEntry)
      → IsLog x es
      → IsLog y es
      → IsLog (if b then x else y) es
  either-IsLog true x y es first second = first
  either-IsLog false x y es first second = second

  append-IsLog :
      (now : ℕ) (w : WalWriter) (es : List WalEntry) (operation : Operation)
      → IsWritten c (sealed c (new_entry now w.current_sequence operation))
      → IsLog w es
      → IsLog
          (append c now w operation).1
          (es ++ (sealed c (new_entry now w.current_sequence operation) ∷ []))
  unfolding append
  append-IsLog now w es operation fine log =
      let e = sealed c (new_entry now w.current_sequence operation) in
      let counted : WalWriter = record w { current_sequence = add64 w.current_sequence 1 } in
      let mine = verify_checksum-sealed c (new_entry now w.current_sequence operation) in
      let same = count-IsLog w es (add64 w.current_sequence 1) log in
      either-IsLog (should_rotate counted (length (serialize_entry c e)))
        (write (rotate_file counted) (serialize_entry c e)) (write counted (serialize_entry c e))
        (es ++ (e ∷ []))
        (write-IsLog (rotate_file counted) es e fine mine (rotate_file-IsLog counted es same))
        (write-IsLog counted es e fine mine same)

  append-sequence :
      (now : ℕ) (w : WalWriter) (operation : Operation)
      → (append c now w operation).1.current_sequence ≡ add64 w.current_sequence 1
  unfolding append write rotate_file
  append-sequence now w operation = ground arith

  append_all-IsLog :
      (ops : List (ℕ × Operation)) (w : WalWriter) (es : List WalEntry)
      → All (IsWritten c) (entries_from c w.current_sequence ops)
      → IsLog w es
      → IsLog (append_all c w ops) (es ++ entries_from c w.current_sequence ops)
  unfolding append_all entries_from
  append_all-IsLog [] w es fine log = subst (IsLog w) (sym (append-nil es)) log
  append_all-IsLog ((now, operation) ∷ ops) w es fine log =
      let e = sealed c (new_entry now w.current_sequence operation) in
      let later = (append c now w operation).1 in
      subst (IsLog (append_all c later ops))
        (append_assoc es (e ∷ []) (entries_from c later.current_sequence ops)
          ∙ ap (λ n. es ++ (e ∷ entries_from c n ops)) (append-sequence now w operation))
        (append_all-IsLog ops later (es ++ (e ∷ []))
          (subst (λ n. All (IsWritten c) (entries_from c n ops))
            (sym (append-sequence now w operation)) fine.1)
          (append-IsLog now w es operation fine.0 log))

  -- The entries that a writer appends to an empty log, in files that it changes at a maximal size, are
  -- what the reader finds in the files one after the other: each operation once, in order, numbered from 0
  -- modulo 2^64, and no error. The JSON package reads each of these entries as it wrote it, in fewer than
  -- 2^32 bytes, and their checksums are 32-bit numbers.
  pub log_events-append_all :
      (max_file_size : ℕ) (ops : List (ℕ × Operation))
      → All (IsWritten c) (entries_from c 0 ops)
      → log_events c (all_files (append_all c (new c max_file_size []) ops))
        ≡ map entry (entries_from c 0 ops)
  unfolding new scan_existing_wals scan_files open_file log_events serialize_all are_sealed
  log_events-append_all max_file_size ops fine =
      let w = new c max_file_size [] in
      IsLog-read (append_all c w ops) (entries_from c 0 ops)
        (append_all-IsLog ops w [] fine (holds [] [] refl refl tt refl refl))
