-- ===== src/Arena/Overlap.antt =====
-- A block that is handed out again may be larger than the one that was freed.
use ved_db_server.Prelude.{ℕ, ◌+◌, ◌≤◌, ◌<◌, ◌≡◌, ap, ◌∙◌, inl, inr, arith, length, get_or}
use ved_db_server.Arena.Defs.{Arena, allocate, free}
use ved_db_server.Arena.Bump.{IsValid, IsRequest, Placed, bump_allocate-cases, align_up_bounds}
use ved_db_server.Arena.Blocks.{NothingFreed, allocate-eq-bump_allocate}
use ved_db_server.Arena.FreeList.{size_class_for-smallest}
use ved_db_server.Arena.Reuse.{FitsClass, allocate-free}

-- With room for the block and its alignment, and nothing freed, an allocation succeeds.
pub allocate-Placed :
    {a : Arena} (size align : ℕ)
    → IsValid a
    → NothingFreed a
    → IsRequest size align
    → a.current + align + size ≤ a.size
    → Placed a size align (allocate a size align)
allocate-Placed {a} size align v n q room =
    rw (allocate-eq-bump_allocate a size align n q.some_bytes)
      (elim (bump_allocate-cases size align v q) [
        | inl (e, full) ↦
            absurd
              (omega (arith, align_up_bounds a.current align (omega arith) q.power q.small_align))
        | inr e ↦ e
      ])

Placed-NothingFreed :
    {a : Arena} {size align : ℕ} {r : ℕ × Arena}
    → NothingFreed a
    → Placed a size align r
    → NothingFreed r.1
Placed-NothingFreed n p i = ap (λ l. get_or l i 0) p.same_lists ∙ n i

-- Take a block of `small` bytes and a neighbour, free the first, and ask for `large` bytes of the
-- same size class, more than `small` and the alignment together: the request is given the old
-- block's offset, though the neighbour begins inside what it may now write.
pub reused_block_overlaps :
    (a : Arena) (small large neighbour align i : ℕ)
    → IsValid a
    → NothingFreed a
    → length a.free_lists ≡ 13
    → FitsClass small i
    → FitsClass large i
    → IsRequest small align
    → IsRequest neighbour align
    → small + align ≤ large
    → a.current + align + small + align + neighbour ≤ a.size
    → let (first, a1) = allocate a small align in
      let (second, a2) = allocate a1 neighbour align in
      let (third, a3) = allocate (free a2 first small) large align in
      (third ≡ first) × (third < second) × (second < third + large)
reused_block_overlaps a small large neighbour align i v n lists f g q r wider room =
    let p : Placed a small align (allocate a small align) =
      allocate-Placed small align v n q (omega arith) in
    let a1 = (allocate a small align).1 in
    let n1 : NothingFreed a1 = Placed-NothingFreed n p in
    let p2 : Placed a1 neighbour align (allocate a1 neighbour align) =
      allocate-Placed neighbour align (omega (arith, p)) n1 r (omega (arith, p)) in
    let a2 = (allocate a1 neighbour align).1 in
    let n2 : NothingFreed a2 = Placed-NothingFreed n1 p2 in
    let again : (allocate (free a2 (allocate a small align).0 small) large align).0
        ≡ (allocate a small align).0 =
      (allocate-free a2 (allocate a small align).0 small large align i (omega (arith, p)) p.aligned
        (omega (
          arith,
          (size_class_for-smallest small i f.class).0,
          ap length p.same_lists,
          ap length p2.same_lists,
          lists,
        ))
        (omega (arith, n2 i)) f g).0 in
    (again, omega (arith, again, p, p2), omega (arith, again, p, p2))
