-- ===== src/Arena/Blocks.antt =====
-- Any sequence of allocations without a free in between.
use ved_db_server.Prelude.{
  get_or-replicate, ℕ, ◌+◌, ◌^◌, ◌≤◌, ◌<◌, ◌≡◌, ap, ◌∙◌, inl, inr, false, List, [], ◌∷◌, arith,
  ◌==◌, if◌then◌else◌, Option-cases, get_or, All,
}
use mathlib.Core.Path.{subst₂}
use ved_db_server.Arena.Defs.{
  Arena, header_size, init, allocate, allocate_from_free_list, bump_allocate, list_head,
  size_class_for,
}
use ved_db_server.Prelude.Memory.{Memory}
use ved_db_server.Arena.Bump.{IsValid, IsRequest, Placed, bump_allocate-cases}

-- No block waits for reuse.
abbrev pub NothingFreed : Arena → Type 0
NothingFreed a = (i : ℕ) → list_head a i ≡ 0

-- Then every allocation is a bump allocation.
pub allocate-eq-bump_allocate :
    (a : Arena) (size align : ℕ)
    → NothingFreed a
    → 0 < size
    → allocate a size align ≡ bump_allocate a size align
unfolding allocate allocate_from_free_list
allocate-eq-bump_allocate a size align none_freed pos = elim (Option-cases (size_class_for size)) [
  | inl e ↦ ground arith
  | inr (i, e) ↦ ground (arith, none_freed i)
]

pub record Request : Type 0 where
  pub bytes : ℕ
  pub align : ℕ

-- the blocks, offset and size, that a sequence of requests gets
unfoldable pub allocate_all : Arena → List Request → List (ℕ × ℕ)
allocate_all a [] = []
allocate_all a (q ∷ qs) =
    let (offset, a') = allocate a q.bytes q.align in
    let rest = allocate_all a' qs in if offset == 0 then rest else (offset, q.bytes) ∷ rest

-- Each block starts at or after the end of the one before it, the first at or after `lo`, and all
-- end by `hi`.
abbrev Spaced : ℕ → ℕ → List (ℕ × ℕ) → Type 0
Spaced lo hi [] = Unit
Spaced lo hi ((offset, size) ∷ bs) =
    (lo ≤ offset) × (offset + size ≤ hi) × Spaced (offset + size) hi bs

abbrev pub AllRequests : List Request → Type 0
AllRequests [] = Unit
AllRequests (q ∷ qs) = IsRequest q.bytes q.align × AllRequests qs

Placed-Spaced :
    (q : Request) (qs : List Request) {a : Arena}
    → IsValid a
    → NothingFreed a
    → IsRequest q.bytes q.align
    → Placed a q.bytes q.align (bump_allocate a q.bytes q.align)
    → (IsValid (bump_allocate a q.bytes q.align).1
        → NothingFreed (bump_allocate a q.bytes q.align).1
        → Spaced
            (bump_allocate a q.bytes q.align).1.current
            (bump_allocate a q.bytes q.align).1.size
            (allocate_all (bump_allocate a q.bytes q.align).1 qs))
    → Spaced a.current a.size (
        if (bump_allocate a q.bytes q.align).0 == 0
        then allocate_all (bump_allocate a q.bytes q.align).1 qs
        else ((bump_allocate a q.bytes q.align).0, q.bytes)
          ∷ allocate_all (bump_allocate a q.bytes q.align).1 qs)
Placed-Spaced q qs {a} v n r e rest =
    let nonzero : ((bump_allocate a q.bytes q.align).0 == 0) ≡ false = ground arith in
    let after : Spaced (bump_allocate a q.bytes q.align).1.current
        (bump_allocate a q.bytes q.align).1.size
        (allocate_all (bump_allocate a q.bytes q.align).1 qs) =
      rest (omega arith) (λ i. ap (λ l. get_or l i 0) e.same_lists ∙ n i) in
    rw nonzero (
      e.after,
      e.inside,
      subst₂ (λ lo hi. Spaced lo hi (allocate_all (bump_allocate a q.bytes q.align).1 qs)) e.pointer
          e.same_size after,
    )

allocate_all-Spaced :
    (qs : List Request) {a : Arena}
    → IsValid a
    → NothingFreed a
    → AllRequests qs
    → Spaced a.current a.size (allocate_all a qs)
unfolding allocate_all
allocate_all-Spaced [] v n h = tt
allocate_all-Spaced (q ∷ qs) {a} v n h =
    rw (allocate-eq-bump_allocate a q.bytes q.align n (omega arith))
      (elim (bump_allocate-cases q.bytes q.align v h.0) [
        | inl (e, full) ↦ rw (e.0, e.1) (allocate_all-Spaced qs v n h.1)
        | inr e ↦ Placed-Spaced q qs v n h.0 e (λ v' n'. allocate_all-Spaced qs v' n' h.1)
      ])

-- The blocks lie between the header and the end of the arena, and each two of them are apart.
abbrev pub AllApart : ℕ → List (ℕ × ℕ) → Type 0
AllApart hi [] = Unit
AllApart hi ((offset, size) ∷ bs) =
    (header_size ≤ offset)
    × (offset + size ≤ hi)
    × All (λ b. offset + size ≤ b.0) bs
    × AllApart hi bs

Spaced-All : (lo hi k : ℕ) (bs : List (ℕ × ℕ)) → Spaced lo hi bs → k ≤ lo → All (λ b. k ≤ b.0) bs
Spaced-All lo hi k [] h le = tt
Spaced-All lo hi k ((offset, size) ∷ bs) h le =
    (omega arith, Spaced-All (offset + size) hi k bs h.2 (omega arith))

Spaced-AllApart :
    (lo hi : ℕ) (bs : List (ℕ × ℕ)) → Spaced lo hi bs → header_size ≤ lo → AllApart hi bs
Spaced-AllApart lo hi [] h le = tt
Spaced-AllApart lo hi ((offset, size) ∷ bs) h le = (
  omega arith,
  h.1,
  Spaced-All (offset + size) hi (offset + size) bs h.2 (omega arith),
  Spaced-AllApart (offset + size) hi bs h.2 (omega arith),
)

-- From a new arena of fewer than 2^62 bytes that has room for its header, the blocks that a sequence of
-- requests gets, when none is freed in between, lie behind the header and inside the arena, and each
-- block ends before every later one begins. Each request is for 1 to 2^62 - 1 bytes, aligned to a power
-- of two below 2^62: the arithmetic of others can wrap.
pub allocate_all-AllApart :
    (memory : Memory) (size : ℕ) (qs : List Request)
    → header_size ≤ size
    → size < 2 ^ 62
    → AllRequests qs
    → AllApart size (allocate_all (init memory size) qs)
unfolding init
allocate_all-AllApart memory size qs h k rs =
    Spaced-AllApart header_size size (allocate_all (init memory size) qs)
      (allocate_all-Spaced qs {a = init memory size} (omega arith) (λ i. get_or-replicate 13 i 0)
        rs)
      (omega arith)
