-- ===== src/Log/Serialized.antt =====
-- What the reader of wal/reader.rs finds in the bytes of entries one after the other.
use ved_db_server.Prelude.{
  ℕ, zero, suc, ◌+◌, ◌%◌, ◌≤◌, ◌<◌, ◌≡◌, refl, sym, ap, subst, ◌∙◌, Bool, true, ◌&&◌, List, [], ◌∷◌,
  ◌++◌, map, arith, leb, le→leb, length, take, drop, All, length-append,
}
use mathlib.Core.List.{append_assoc}
use ved_db_server.Prelude.Bytes.{
  to_le_bytes, from_le_bytes, u32_mod, length-to_le_bytes, from_le_bytes-to_le_bytes,
}
use ved_db_server.Log.{Codec, IsWritten, WalEntry, verify_checksum}
use ved_db_server.Log.Reader.{
  next, entry, checked, read_entry, next_entry, events, events_after, file_events,
}
use ved_db_server.Log.Writer.{serialize_entry}

take-front : (xs ys : List ℕ) (n : ℕ) → length xs ≡ n → take n (xs ++ ys) ≡ xs
take-front [] ys n e = subst (λ k. take k ys ≡ []) e refl
take-front (x ∷ xs) ys zero e = absurd (omega arith)
take-front (x ∷ xs) ys (suc n) e = ap (◌∷◌ x) (take-front xs ys n (omega arith))

drop-front : (xs ys : List ℕ) (n : ℕ) → length xs ≡ n → drop n (xs ++ ys) ≡ ys
drop-front [] ys n e = subst (λ k. drop k ys ≡ ys) e refl
drop-front (x ∷ xs) ys zero e = absurd (omega arith)
drop-front (x ∷ xs) ys (suc n) e = drop-front xs ys n (omega arith)

unfoldable pub serialize_all : Codec → List WalEntry → List ℕ
serialize_all c [] = []
serialize_all c (e ∷ es) = serialize_entry c e ++ serialize_all c es

-- entries with their own checksums
unfoldable pub are_sealed : Codec → List WalEntry → Bool
are_sealed c [] = true
are_sealed c (e ∷ es) = verify_checksum c e && are_sealed c es

pub serialize_all-append :
    (c : Codec) (xs ys : List WalEntry)
    → serialize_all c (xs ++ ys) ≡ serialize_all c xs ++ serialize_all c ys
unfolding serialize_all
serialize_all-append c [] ys = refl
serialize_all-append c (e ∷ es) ys =
    ap (λ bs. serialize_entry c e ++ bs) (serialize_all-append c es ys)
    ∙ sym (append_assoc (serialize_entry c e) (serialize_all c es) (serialize_all c ys))

pub are_sealed-append :
    (c : Codec) (xs ys : List WalEntry)
    → are_sealed c xs ≡ true
    → are_sealed c ys ≡ true
    → are_sealed c (xs ++ ys) ≡ true
unfolding are_sealed
are_sealed-append c [] ys own more = more
are_sealed-append c (e ∷ es) ys own more = ground (arith, are_sealed-append c es ys, own, more)

length-serialize_all : (c : Codec) (es : List WalEntry) → length es ≤ length (serialize_all c es)
unfolding serialize_all serialize_entry
length-serialize_all c [] = ground arith
length-serialize_all c (e ∷ es) =
    let json = c.encode e ++ to_le_bytes 4 e.checksum in
    let size = to_le_bytes 4 (length (c.encode e) % u32_mod) in
    omega (
      arith,
      length-serialize_all c es,
      length-append (size ++ json) (serialize_all c es),
      length-append size json,
      length-to_le_bytes 4 (length (c.encode e) % u32_mod),
    )

module _ (c : Codec) where
  read_entry-whole :
      (e : WalEntry) (rest : List ℕ)
      → IsWritten c e
      → verify_checksum c e ≡ true
      → read_entry c (length (c.encode e)) (c.encode e ++ (to_le_bytes 4 e.checksum ++ rest))
        ≡ next e rest
  unfolding read_entry checked
  read_entry-whole e rest good own =
      let json = c.encode e in
      let tail = to_le_bytes 4 e.checksum ++ rest in
      let long : leb (length json + 4) (length (json ++ tail)) ≡ true =
        le→leb (length json + 4) (length (json ++ tail)) (
          omega (
            arith,
            length-append json tail,
            length-append (to_le_bytes 4 e.checksum) rest,
            length-to_le_bytes 4 e.checksum,
          )) in
      let sum : from_le_bytes (take 4 tail) ≡ e.checksum =
        ap from_le_bytes
          (take-front (to_le_bytes 4 e.checksum) rest 4 (length-to_le_bytes 4 e.checksum))
        ∙ from_le_bytes-to_le_bytes 4 e.checksum good.checksum-bounded in
      rw
        (
          read_entry,
          long,
          take-front json tail (length json) refl,
          good.decode-encode,
          drop-front json tail (length json) refl,
          sum,
          drop-front (to_le_bytes 4 e.checksum) rest 4 (length-to_le_bytes 4 e.checksum),
          checked,
          own,
        )
        refl

  next_entry-serialize :
      (e : WalEntry) (rest : List ℕ)
      → IsWritten c e
      → verify_checksum c e ≡ true
      → next_entry c (serialize_entry c e ++ rest) ≡ next e rest
  unfolding next_entry serialize_entry
  next_entry-serialize e rest good own =
      let json = c.encode e in
      let tail = json ++ (to_le_bytes 4 e.checksum ++ rest) in
      let size = to_le_bytes 4 (length json % u32_mod) in
      let split : serialize_entry c e ++ rest ≡ size ++ tail =
        append_assoc size (json ++ to_le_bytes 4 e.checksum) rest
        ∙ ap (λ bs. size ++ bs) (append_assoc json (to_le_bytes 4 e.checksum) rest) in
      let long : leb 4 (length (size ++ tail)) ≡ true =
        le→leb 4 (length (size ++ tail))
          (omega (arith, length-append size tail, length-to_le_bytes 4 (length json % u32_mod))) in
      let len : from_le_bytes (take 4 (size ++ tail)) ≡ length json =
        ap from_le_bytes (take-front size tail 4 (length-to_le_bytes 4 (length json % u32_mod)))
        ∙ from_le_bytes-to_le_bytes 4 (length json % u32_mod) (omega arith)
        ∙ omega (arith, good.length-bounded) in
      ap (next_entry c) split
      ∙ rw
          (
            next_entry,
            long,
            len,
            drop-front size tail 4 (length-to_le_bytes 4 (length json % u32_mod)),
          )
          (read_entry-whole e rest good own)

  pub events-serialize :
      (es : List WalEntry) (fuel : ℕ)
      → All (IsWritten c) es
      → are_sealed c es ≡ true
      → length es < fuel
      → events c fuel (serialize_all c es) ≡ map entry es
  unfolding events serialize_all are_sealed events_after next_entry
  events-serialize es zero good own enough = absurd (omega arith)
  events-serialize [] (suc fuel) good own enough = refl
  events-serialize (e ∷ es) (suc fuel) good own enough =
      rw (next_entry-serialize e (serialize_all c es) good.0 (ground (arith, own)), events_after)
        (ap (◌∷◌ (entry e)) (events-serialize es fuel good.1 (ground (arith, own)) (omega arith)))

  pub file_events-serialize :
      (es : List WalEntry)
      → All (IsWritten c) es
      → are_sealed c es ≡ true
      → file_events c (serialize_all c es) ≡ map entry es
  unfolding file_events
  file_events-serialize es good own =
      events-serialize es (suc (length (serialize_all c es))) good own
        (omega (arith, length-serialize_all c es))
