-- ===== src/Ring/Mpmc/FirstLap.antt =====
-- Until its indices have gone round once, an MPMC ring is a queue.
use ved_db_server.Prelude.{
  ℕ, zero, suc, ◌+◌, ◌-◌, ◌≤◌, ◌<◌, ◌≡◌, refl, subst, some, List, [], ◌∷◌, map, arith,
}
use ved_db_server.Ring.Slot.{Slot}
use ved_db_server.Ring.Queue
use ved_db_server.Ring.Queue.{enqueue, dequeue, Call, push, pop, Reply, pushed, popped, pushes}
use ved_db_server.Ring.Mpmc.{MpmcRing, init, Outcome, map_outcome, returns, try_push, try_pop}
use ved_db_server.Ring.Mpmc.LapSteps.{
  Lap, contents, length-contents, after_push-Lap, try_push-Lap, contents-after_push, try_pop-Lap,
  after_pop-Lap, contents-after_pop, init-Lap,
}

-- the outcomes of a sequence of calls
pub run : MpmcRing → List (Call Slot) → List (Outcome (Reply Slot))
run r [] = []
run r (push s ∷ calls) = let (done, r') = try_push r s in map_outcome pushed done ∷ run r' calls
run r (pop ∷ calls) = let (out, r') = try_pop r in map_outcome popped out ∷ run r' calls

-- No pop of the sequence meets an empty queue, which holds `n` items at first.
abbrev pub NoPopOnEmpty : ℕ → List (Call Slot) → Type 0
NoPopOnEmpty n [] = Unit
NoPopOnEmpty n (push s ∷ calls) = NoPopOnEmpty (suc n) calls
NoPopOnEmpty zero (pop ∷ calls) = ⊥
NoPopOnEmpty (suc n) (pop ∷ calls) = NoPopOnEmpty n calls

pop-NoPopOnEmpty :
    (n : ℕ) (calls : List (Call Slot))
    → NoPopOnEmpty n (pop ∷ calls)
    → (0 < n) × NoPopOnEmpty (n - 1) calls
pop-NoPopOnEmpty zero calls h = absurd h
pop-NoPopOnEmpty (suc n) calls h = (omega arith, subst (λ m. NoPopOnEmpty m calls) (omega arith) h)

Lap-refines :
    (calls : List (Call Slot)) {r : MpmcRing}
    → Lap r
    → r.head + pushes calls ≤ r.capacity
    → NoPopOnEmpty (r.head - r.tail) calls
    → run r calls ≡ map returns (Queue.run r.capacity (contents r) calls)
unfolding run Queue.run enqueue dequeue
Lap-refines [] v h n = refl
Lap-refines (push s ∷ calls) {r} v h n =
    let room : r.head < r.capacity = omega arith in
    ground (
      arith,
      try_push-Lap s v room,
      length-contents r,
      contents-after_push s v room,
      Lap-refines calls (after_push-Lap s v room) (omega arith)
          (subst (λ m. NoPopOnEmpty m calls) (omega arith) n),
    )
Lap-refines (pop ∷ calls) {r} v h n =
    let (some_left, n') = pop-NoPopOnEmpty (r.head - r.tail) calls n in
    let left : r.tail < r.head = omega arith in
    ground (
      arith,
      try_pop-Lap v left,
      contents-after_pop v left,
      Lap-refines calls (after_pop-Lap v left) (omega arith)
          (subst (λ m. NoPopOnEmpty m calls) (omega arith) n'),
    )

-- On a new ring, calls that push at most `capacity` slots in all and never pop an empty queue all
-- return, with the replies of a first-in-first-out queue.
pub first_lap_refines :
    (capacity : ℕ) {r : MpmcRing} (calls : List (Call Slot))
    → init capacity ≡ some r
    → pushes calls ≤ capacity
    → NoPopOnEmpty 0 calls
    → run r calls ≡ map returns (Queue.run capacity [] calls)
first_lap_refines capacity calls e h n =
    let (v, head, tail, c, empty) = init-Lap capacity e in
    ground
      (arith, Lap-refines calls v (omega arith) (subst (λ m. NoPopOnEmpty m calls) (omega arith) n))
