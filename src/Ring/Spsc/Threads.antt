-- ===== src/Ring/Spsc/Threads.antt =====
-- One producer thread and one consumer thread on a shared SPSC ring (`try_push` and `try_pop` of
-- ring/spsc.rs), interleaved at their accesses of shared memory. The `push` and `pop` loops
-- are repeated calls, so they need no steps of their own. The Acquire and Release orderings of the
-- code make each access of an index or a slot one step of this interleaving.
pub mod Invariant
mod Keeps
pub mod Safety
use ved_db_server.Prelude.{
  ℕ, zero, suc, ◌+◌, ◌-◌, ◌*◌, ◌/◌, ◌%◌, ◌^◌, ◌≤◌, ◌<◌, min, max, bit_and, bit_xor, ◌≡◌, refl, sym,
  ap, ap₂, subst, ◌∙◌, ◌≢◌, ◌↔◌, ◌⊎◌, inl, inr, Bool, true, false, not, ◌&&◌, ◌||◌, Option, none,
  some, List, [], ◌∷◌, ◌++◌, map, arith, ltb, leb, ◌==◌, if◌then◌else◌, ltb→lt, lt→ltb, leb→le,
  le→leb, ==_iff, Bool-cases, Option-cases, length, get_elem?, get_or, set, drop, replicate, All,
  length-append, length-replicate, length-set, get_or-set_self, get_or-set_ne, take-append_length,
  length-drop, All-append, All-drop,
}
use ved_db_server.Prelude.Bytes.{add64, sub64}
use ved_db_server.Ring.Slot
use ved_db_server.Ring.Slot.{Slot}
use ved_db_server.Ring.Spsc.{SpscRing, slot_at, write_slot}

-- Where a call of `try_push(slot)` stands, with the locals that it has read.
pub data ProducerPc : Type 0 where
  resting : ProducerPc
  knows_own : Slot → ℕ → ProducerPc  -- has producer_idx
  knows_both : Slot → ℕ → ℕ → ProducerPc  -- has producer_idx and consumer_idx
  written : Slot → ℕ → ProducerPc  -- before the store of producer_index

-- Where a call of `try_pop()` stands.
pub data ConsumerPc : Type 0 where
  waiting : ConsumerPc
  knows_own : ℕ → ConsumerPc  -- has consumer_idx
  knows_both : ℕ → ℕ → ConsumerPc  -- has consumer_idx and producer_idx
  taken : ℕ → Slot → ConsumerPc  -- has read the slot
  cleared : ℕ → Slot → ConsumerPc  -- before the store of consumer_index

-- The steps of the producer; `sent` lists the slots of the calls that returned true.
pub data Produce (r : SpscRing) (sent : List Slot)
    : ProducerPc → SpscRing → ProducerPc → List Slot → Type 0 where
  start : (slot : Slot) → Produce r sent resting r (ProducerPc.knows_own slot r.producer_index) sent
  load :
      {slot : Slot} {own : ℕ}
      → Produce r sent
          (ProducerPc.knows_own slot own)
          r
          (ProducerPc.knows_both slot own r.consumer_index)
          sent
  full :
      {slot : Slot} {own other : ℕ}
      → leb r.capacity (sub64 own other) ≡ true
      → Produce r sent (ProducerPc.knows_both slot own other) r resting sent
  write :
      {slot : Slot} {own other : ℕ}
      → leb r.capacity (sub64 own other) ≡ false
      → Produce r sent
          (ProducerPc.knows_both slot own other)
          (write_slot r own slot)
          (written slot own)
          sent
  publish :
      {slot : Slot} {own : ℕ}
      → Produce r sent
          (written slot own)
          (record r { producer_index = add64 own 1 })
          resting
          (sent ++ (slot ∷ []))

-- The steps of the consumer; `received` lists the slots that its calls returned.
pub data Consume (r : SpscRing) (received : List Slot)
    : ConsumerPc → SpscRing → ConsumerPc → List Slot → Type 0 where
  start : Consume r received waiting r (ConsumerPc.knows_own r.consumer_index) received
  load :
      {own : ℕ}
      → Consume r received
          (ConsumerPc.knows_own own)
          r
          (ConsumerPc.knows_both own r.producer_index)
          received
  empty :
      {own other : ℕ}
      → leb other own ≡ true
      → Consume r received (ConsumerPc.knows_both own other) r waiting received
  take :
      {own other : ℕ}
      → leb other own ≡ false
      → Consume r received (ConsumerPc.knows_both own other) r (taken own (slot_at r own)) received
  clear :
      {own : ℕ} {slot : Slot}
      → Consume r received
          (taken own slot)
          (write_slot r own Slot.empty)
          (cleared own slot)
          received
  publish :
      {own : ℕ} {slot : Slot}
      → Consume r received
          (cleared own slot)
          (record r { consumer_index = add64 own 1 })
          waiting
          (received ++ (slot ∷ []))

pub record System : Type 0 where
  pub ring : SpscRing
  pub producer : ProducerPc
  pub consumer : ConsumerPc
  pub sent : List Slot
  pub received : List Slot

pub data Step (s : System) : System → Type 0 where
  by_producer :
      {r : SpscRing} {p : ProducerPc} {sent : List Slot}
      → Produce s.ring s.sent s.producer r p sent
      → Step s (record s { ring = r; producer = p; sent = sent })
  by_consumer :
      {r : SpscRing} {c : ConsumerPc} {received : List Slot}
      → Consume s.ring s.received s.consumer r c received
      → Step s (record s { ring = r; consumer = c; received = received })

-- both threads before their first call
abbrev pub started : SpscRing → System
started r = record { ring = r; producer = resting; consumer = waiting; sent = []; received = [] }

pub data Reach (r : SpscRing) : System → Type 0 where
  here : Reach r (started r)
  next : {s t : System} → Reach r s → Step s t → Reach r t
