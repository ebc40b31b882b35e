-- ===== src/Ring/Spsc/Refine.antt =====
-- A valid SPSC ring behaves as the bounded queue of its contents.
use ved_db_server.Prelude.{
  suc, ◌+◌, ◌-◌, ◌≤◌, ◌<◌, ◌≡◌, refl, List, [], ◌∷◌, arith, leb, ◌==◌, length, length-set,
}
use ved_db_server.Prelude.Bytes.{u64_mod}
use ved_db_server.Ring.Slot
use ved_db_server.Ring.Slot.{Slot}
use ved_db_server.Ring.Queue
use ved_db_server.Ring.Queue.{enqueue, dequeue, Call, push, pop, Reply, pushed, popped}
use ved_db_server.Ring.Window.{window-set_before, window-set_after, window-pos}
use ved_db_server.Ring.Spsc.{SpscRing, slot_index, try_push, try_pop, len, is_empty, is_full}
use ved_db_server.Ring.Spsc.Valid.{IsValid, contents, length-contents, slot_index-eq-mod}

-- Below the last index value, `try_push` keeps the invariant.
pub try_push-IsValid :
    {r : SpscRing} (s : Slot)
    → IsValid r
    → r.producer_index + 1 < u64_mod
    → IsValid (try_push r s).1
      × ((try_push r s).1.producer_index ≤ r.producer_index + 1)
      × ((try_push r s).1.capacity ≡ r.capacity)
unfolding try_push
try_push-IsValid {r} s v h = ground (arith, length-set r.slots (slot_index r r.producer_index) s)

pub try_pop-IsValid :
    {r : SpscRing}
    → IsValid r
    → IsValid (try_pop r).1
      × ((try_pop r).1.producer_index ≡ r.producer_index)
      × ((try_pop r).1.capacity ≡ r.capacity)
unfolding try_pop
try_pop-IsValid {r} v =
    ground (arith, length-set r.slots (slot_index r r.consumer_index) Slot.empty)

-- `try_push` answers as the queue does, and leaves the ring holding what the queue then holds.
pub try_push_refines :
    {r : SpscRing} (s : Slot)
    → IsValid r
    → r.producer_index + 1 < u64_mod
    → let (done, r') = try_push r s in (done, contents r') ≡ enqueue r.capacity s (contents r)
unfolding try_push enqueue
try_push_refines {r} s v h = ground (
  arith,
  length-contents r,
  slot_index-eq-mod r.producer_index v,
  window-set_after Slot.empty r.capacity r.slots r.consumer_index r.producer_index
      (r.producer_index - r.consumer_index) s,
)

-- `try_pop` returns what the queue does, and leaves the ring holding the rest.
pub try_pop_refines :
    {r : SpscRing}
    → IsValid r
    → let (out, r') = try_pop r in (out, contents r') ≡ dequeue (contents r)
unfolding try_pop dequeue
try_pop_refines {r} v = ground (
  arith,
  slot_index-eq-mod r.consumer_index v,
  window-pos Slot.empty r.capacity r.slots r.consumer_index (r.producer_index - r.consumer_index),
  window-set_before Slot.empty r.capacity r.slots r.consumer_index (suc r.consumer_index)
      (r.producer_index - suc r.consumer_index) Slot.empty,
)

-- the replies to a sequence of calls
pub run : SpscRing → List (Call Slot) → List (Reply Slot)
run r [] = []
run r (push s ∷ calls) = let (done, r') = try_push r s in pushed done ∷ run r' calls
run r (pop ∷ calls) = let (out, r') = try_pop r in popped out ∷ run r' calls

-- No sequence of calls that stays below the last index value tells a valid ring from the bounded
-- queue of its contents.
pub run_refines :
    (calls : List (Call Slot)) {r : SpscRing}
    → IsValid r
    → r.producer_index + length calls < u64_mod
    → run r calls ≡ Queue.run r.capacity (contents r) calls
unfolding run Queue.run
run_refines [] v h = refl
run_refines (push s ∷ calls) {r} v h =
    let (valid, grown, same) = try_push-IsValid s v (omega arith) in
    ground (arith, try_push_refines s v (omega arith), run_refines calls valid (omega arith))
run_refines (pop ∷ calls) {r} v h =
    let (valid, grown, same) = try_pop-IsValid v in
    ground (arith, try_pop_refines v, run_refines calls valid (omega arith))

-- `len`, `is_empty` and `is_full` describe the contents.
len-contents :
    {r : SpscRing}
    → IsValid r
    → (len r ≡ length (contents r))
      × (is_empty r ≡ (length (contents r) == 0))
      × (is_full r ≡ leb r.capacity (length (contents r)))
      × (len r ≤ r.capacity)
unfolding len is_empty is_full
len-contents {r} v = ground (arith, length-contents r)
