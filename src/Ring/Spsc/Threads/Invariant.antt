-- ===== src/Ring/Spsc/Threads/Invariant.antt =====
-- What holds between any two steps of the two threads.
use ved_db_server.Prelude.{
  ℕ, suc, ◌+◌, ◌-◌, ◌%◌, ◌≤◌, ◌<◌, ◌≡◌, List, [], ◌∷◌, ◌++◌, arith, length, get_or,
}
use ved_db_server.Ring.Slot
use ved_db_server.Ring.Slot.{Slot}
use ved_db_server.Ring.Window.{window}
use ved_db_server.Ring.Spsc.{SpscRing}
use ved_db_server.Ring.Spsc.Valid.{IsValid}
use ved_db_server.Ring.Spsc.Threads.{
  ProducerPc, resting, written, ConsumerPc, waiting, taken, cleared,
}

abbrev pub ProducerAt : SpscRing → ProducerPc → Type 0
ProducerAt r resting = Unit
ProducerAt r (ProducerPc.knows_own slot own) = own ≡ r.producer_index
ProducerAt r (ProducerPc.knows_both slot own other) =
    (own ≡ r.producer_index) × (other ≤ r.consumer_index)
ProducerAt r (written slot own) =
    (own ≡ r.producer_index)
    × (own < r.consumer_index + r.capacity)
    × (get_or r.slots (own % r.capacity) Slot.empty ≡ slot)

abbrev pub ConsumerAt : SpscRing → ConsumerPc → Type 0
ConsumerAt r waiting = Unit
ConsumerAt r (ConsumerPc.knows_own own) = own ≡ r.consumer_index
ConsumerAt r (ConsumerPc.knows_both own other) =
    (own ≡ r.consumer_index) × (other ≤ r.producer_index)
ConsumerAt r (taken own slot) =
    (own ≡ r.consumer_index)
    × (own < r.producer_index)
    × (get_or r.slots (own % r.capacity) Slot.empty ≡ slot)
ConsumerAt r (cleared own slot) = (own ≡ r.consumer_index) × (own < r.producer_index)

-- the slot that the consumer has cleared and not yet returned
abbrev pub in_hand : ConsumerPc → List Slot
in_hand (cleared own slot) = slot ∷ []
in_hand _ = []

abbrev pub first_left : SpscRing → ConsumerPc → ℕ
first_left r (cleared own slot) = suc r.consumer_index
first_left r _ = r.consumer_index

-- the slots that were sent and are still to be received
abbrev pub in_flight : SpscRing → ConsumerPc → List Slot
in_flight r c =
    in_hand c
    ++ window Slot.empty r.capacity r.slots (first_left r c) (r.producer_index - first_left r c)

pub record Inv (r : SpscRing) (p : ProducerPc) (c : ConsumerPc) (sent received : List Slot)
    : Type 0 where
  pub valid : IsValid r
  pub producer_at : ProducerAt r p
  pub consumer_at : ConsumerAt r c
  pub sent_count : r.producer_index ≡ length sent
  pub received_count : r.consumer_index ≡ length received
  pub fifo : sent ≡ received ++ in_flight r c

pub first_left_bounds :
    (r : SpscRing) (c : ConsumerPc)
    → IsValid r
    → ConsumerAt r c
    → (r.consumer_index ≤ first_left r c) × (first_left r c ≤ r.producer_index)
first_left_bounds r (cleared own slot) v at = omega arith
first_left_bounds r _ v at = omega arith
