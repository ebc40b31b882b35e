-- ===== src/Ring/Spsc/Threads/Keeps.antt =====
-- Every step of either thread keeps the invariant.
use ved_db_server.Prelude.{
  suc, ◌+◌, ◌-◌, ◌%◌, ◌<◌, ◌≡◌, ap, List, [], ◌∷◌, ◌++◌, arith, length, get_or, length-append,
  length-set, get_or-set_self, get_or-set_ne,
}
use ved_db_server.Prelude.Bytes.{u64_mod}
use native.Mathlib.Nat.{mod-lt}
use mathlib.Core.List.{append_assoc}
use ved_db_server.Ring.Slot
use ved_db_server.Ring.Slot.{Slot}
use ved_db_server.Ring.Window.{
  window-snoc_upto, mod-ne, window, window-set_past, window-set_before, window-pos,
}
use ved_db_server.Ring.Spsc.{SpscRing, write_slot, slot_index}
use ved_db_server.Ring.Spsc.Valid.{IsValid, slot_index-eq-mod}
use ved_db_server.Ring.Spsc.Threads.{
  ProducerPc, written, ConsumerPc, taken, cleared, Produce, Consume,
}
use ved_db_server.Ring.Spsc.Threads.Invariant.{ProducerAt, ConsumerAt, in_flight, Inv}

abbrev advance_producer : SpscRing → SpscRing
advance_producer r = record r { producer_index = suc r.producer_index }

abbrev advance_consumer : SpscRing → SpscRing
advance_consumer r = record r { consumer_index = suc r.consumer_index }

abbrev next_written : SpscRing → Slot
next_written r = get_or r.slots (r.producer_index % r.capacity) Slot.empty

-- Writing the producer's place leaves what is in flight, and what the consumer has read, alone.
in_flight-write :
    (r : SpscRing) (c : ConsumerPc) (s : Slot)
    → IsValid r
    → ConsumerAt r c
    → r.producer_index < r.consumer_index + r.capacity
    → in_flight (write_slot r r.producer_index s) c ≡ in_flight r c
in_flight-write r (cleared own slot) s v at room = rw (slot_index-eq-mod r.producer_index v) (
    ap (◌∷◌ slot) (
      window-set_past Slot.empty r.capacity r.slots (suc r.consumer_index) r.producer_index
        (r.producer_index - suc r.consumer_index) s (omega arith) (omega arith)))
in_flight-write r _ s v at room = rw (slot_index-eq-mod r.producer_index v) (
    window-set_past Slot.empty r.capacity r.slots r.consumer_index r.producer_index
      (r.producer_index - r.consumer_index) s (omega arith) (omega arith))

ConsumerAt-write :
    (r : SpscRing) (c : ConsumerPc) (s : Slot)
    → IsValid r
    → ConsumerAt r c
    → r.producer_index < r.consumer_index + r.capacity
    → ConsumerAt (write_slot r r.producer_index s) c
ConsumerAt-write r (taken own slot) s v at room = ground (
  arith,
  slot_index-eq-mod r.producer_index v,
  mod-ne r.capacity own r.producer_index,
  get_or-set_ne r.slots (r.producer_index % r.capacity) (own % r.capacity) s Slot.empty,
)
ConsumerAt-write r _ s v at room = at

ConsumerAt-advance :
    (r : SpscRing) (c : ConsumerPc) → ConsumerAt r c → ConsumerAt (advance_producer r) c
ConsumerAt-advance r (taken own slot) at = ground arith
ConsumerAt-advance r _ at = omega arith

in_flight-advance :
    (r : SpscRing) (c : ConsumerPc)
    → IsValid r
    → ConsumerAt r c
    → in_flight (advance_producer r) c ≡ in_flight r c ++ (next_written r ∷ [])
in_flight-advance r (cleared own slot) v at = ap (◌∷◌ slot) (
    window-snoc_upto Slot.empty r.capacity r.slots (suc r.consumer_index) r.producer_index
      (omega arith))
in_flight-advance r _ v at =
    window-snoc_upto Slot.empty r.capacity r.slots r.consumer_index r.producer_index (omega arith)

-- What the producer has read stays true while the consumer clears its slot and moves on.
ProducerAt-clear :
    (r : SpscRing) (p : ProducerPc)
    → IsValid r
    → ProducerAt r p
    → r.consumer_index < r.producer_index
    → ProducerAt (write_slot r r.consumer_index Slot.empty) p
ProducerAt-clear r (written slot own) v at some_left = ground (
  arith,
  slot_index-eq-mod r.consumer_index v,
  mod-ne r.capacity r.consumer_index own,
  get_or-set_ne r.slots (r.consumer_index % r.capacity) (own % r.capacity) Slot.empty Slot.empty,
)
ProducerAt-clear r _ v at some_left = at

ProducerAt-advance :
    (r : SpscRing) (p : ProducerPc) → ProducerAt r p → ProducerAt (advance_consumer r) p
ProducerAt-advance r (written slot own) at = ground arith
ProducerAt-advance r _ at = omega arith

pub Produce-Inv :
    {r r' : SpscRing} {p p' : ProducerPc} {c : ConsumerPc} {sent sent' received : List Slot}
    → Produce r sent p r' p' sent'
    → length sent' < u64_mod
    → Inv r p c sent received
    → Inv r' p' c sent' received
Produce-Inv (Produce.start slot) h i = ground arith
Produce-Inv Produce.load h i = ground arith
Produce-Inv (Produce.full e) h i = ground arith
Produce-Inv {r} {c} (Produce.write {slot = slot} e) h i = ground (
  arith,
  slot_index-eq-mod r.producer_index i.valid,
  length-set r.slots (slot_index r r.producer_index) slot,
  get_or-set_self r.slots (r.producer_index % r.capacity) slot Slot.empty,
  mod-lt r.producer_index {m = r.capacity},
  ConsumerAt-write r c slot i.valid i.consumer_at,
  in_flight-write r c slot i.valid i.consumer_at,
)
Produce-Inv {r} {c} {sent} {received} (Produce.publish {slot = slot}) h i = ground (
  arith,
  length-append sent (slot ∷ []),
  ConsumerAt-advance r c i.consumer_at,
  in_flight-advance r c i.valid i.consumer_at,
  append_assoc received (in_flight r c) (slot ∷ []),
)

pub Consume-Inv :
    {r r' : SpscRing} {p : ProducerPc} {c c' : ConsumerPc} {sent received received' : List Slot}
    → Consume r received c r' c' received'
    → Inv r p c sent received
    → Inv r' p c' sent received'
Consume-Inv Consume.start i = ground arith
Consume-Inv Consume.load i = ground arith
Consume-Inv (Consume.empty e) i = ground arith
Consume-Inv {r} (Consume.take e) i = ground (arith, slot_index-eq-mod r.consumer_index i.valid)
Consume-Inv {r} {p} (Consume.clear) i = ground (
  arith,
  slot_index-eq-mod r.consumer_index i.valid,
  length-set r.slots (slot_index r r.consumer_index) Slot.empty,
  ProducerAt-clear r p i.valid i.producer_at,
  window-pos Slot.empty r.capacity r.slots r.consumer_index (r.producer_index - r.consumer_index),
  window-set_before Slot.empty r.capacity r.slots r.consumer_index (suc r.consumer_index)
      (r.producer_index - suc r.consumer_index) Slot.empty,
)
Consume-Inv {r} {p} {received} (Consume.publish {slot = slot}) i = ground (
  arith,
  length-append received (slot ∷ []),
  ProducerAt-advance r p i.producer_at,
  append_assoc received (slot ∷ []) (
      window Slot.empty r.capacity r.slots (suc r.consumer_index)
        (r.producer_index - suc r.consumer_index)),
)
