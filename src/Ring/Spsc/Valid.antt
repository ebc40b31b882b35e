-- ===== src/Ring/Spsc/Valid.antt =====
-- The invariant of an SPSC ring, and the queue that it holds.
use ved_db_server.Prelude.{
  ℕ, ◌+◌, ◌-◌, ◌%◌, ◌≤◌, ◌<◌, ◌≡◌, true, some, List, [], length, bit_and, arith, length-replicate,
}
use ved_db_server.Prelude.Bits.{is_power_of_two, is_power_of_two_bounds, bit_and-eq-mod}
use ved_db_server.Prelude.Bytes.{u64_mod}
use ved_db_server.Ring.Slot
use ved_db_server.Ring.Slot.{Slot}
use ved_db_server.Ring.Window.{window, length-window}
use ved_db_server.Ring.Spsc.{SpscRing, init}

pub record IsValid (r : SpscRing) : Type 0 where
  pub power : is_power_of_two r.capacity ≡ true
  pub masked : r.mask + 1 ≡ r.capacity
  pub allocated : length r.slots ≡ r.capacity
  pub ordered : r.consumer_index ≤ r.producer_index
  pub bounded : r.producer_index ≤ r.consumer_index + r.capacity
  pub word : r.producer_index < u64_mod

-- the slots that were pushed and not popped, oldest first
abbrev pub contents : SpscRing → List Slot
contents r =
    window Slot.empty r.capacity r.slots r.consumer_index (r.producer_index - r.consumer_index)

pub length-contents : (r : SpscRing) → length (contents r) ≡ r.producer_index - r.consumer_index
length-contents r =
    length-window Slot.empty r.capacity r.slots r.consumer_index
      (r.producer_index - r.consumer_index)

pub slot_index-eq-mod : {r : SpscRing} (i : ℕ) → IsValid r → bit_and i r.mask ≡ i % r.capacity
slot_index-eq-mod {r} i v = bit_and-eq-mod i r.mask r.capacity v.power v.masked

-- `init` accepts the powers of two, and makes an empty valid ring.
pub init-IsValid :
    (capacity : ℕ) {r : SpscRing}
    → init capacity ≡ some r
    → IsValid r × (r.capacity ≡ capacity) × (contents r ≡ [])
unfolding init
init-IsValid capacity h =
    ground (arith, length-replicate capacity Slot.empty, is_power_of_two_bounds capacity)
