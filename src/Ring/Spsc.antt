-- ===== src/Ring/Spsc.antt =====
-- `SpscRing` of ring/spsc.rs, one call at a time: a method that writes returns the new ring. The
-- atomic indices are `u64` words; the memory behind the struct is the list `slots`.
pub mod Valid
pub mod Refine
pub mod Threads
use ved_db_server.Prelude.{
  ℕ, ◌-◌, Bool, true, false, Option, none, some, List, replicate, get_or, set, leb, ◌==◌, bit_and,
  if◌then◌else◌,
}
use ved_db_server.Prelude.Bits.{is_power_of_two}
use ved_db_server.Prelude.Bytes.{add64, sub64, saturating_sub}
use ved_db_server.Ring.Slot
use ved_db_server.Ring.Slot.{Slot}

pub record SpscRing : Type 0 where
  pub producer_index : ℕ
  pub consumer_index : ℕ
  pub capacity : ℕ
  pub mask : ℕ
  pub slots : List Slot

-- `none` is the panic of the assertion.
unfoldable pub init : ℕ → Option SpscRing
init capacity =
    if is_power_of_two capacity
    then some (record {
      producer_index = 0;
      consumer_index = 0;
      capacity = capacity;
      mask = capacity - 1;
      slots = replicate capacity Slot.empty;
    })
    else none

-- the place that `slot_at` points to
abbrev pub slot_index : SpscRing → ℕ → ℕ
slot_index r index = bit_and index r.mask

abbrev pub slot_at : SpscRing → ℕ → Slot
slot_at r index = get_or r.slots (slot_index r index) Slot.empty

-- `std::ptr::write(slot_at(index), slot)`
abbrev pub write_slot : SpscRing → ℕ → Slot → SpscRing
write_slot r index slot = record r { slots = set r.slots (slot_index r index) slot }

unfoldable pub try_push : SpscRing → Slot → Bool × SpscRing
try_push r slot = if leb r.capacity (sub64 r.producer_index r.consumer_index) then (false, r) else (
  true,
  record (write_slot r r.producer_index slot) { producer_index = add64 r.producer_index 1 },
)

unfoldable pub try_pop : SpscRing → Option Slot × SpscRing
try_pop r = if leb r.producer_index r.consumer_index then (none, r) else (
  some (slot_at r r.consumer_index),
  record (write_slot r r.consumer_index Slot.empty) { consumer_index = add64 r.consumer_index 1 },
)

unfoldable pub len : SpscRing → ℕ
len r = saturating_sub r.producer_index r.consumer_index

unfoldable pub is_empty : SpscRing → Bool
unfolding len
is_empty r = len r == 0

unfoldable pub is_full : SpscRing → Bool
unfolding len
is_full r = leb r.capacity (len r)
