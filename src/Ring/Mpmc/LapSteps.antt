-- ===== src/Ring/Mpmc/LapSteps.antt =====
-- The first lap of an MPMC ring: what the sequence numbers are, and what each call does.
use ved_db_server.Prelude.{
  ℕ, suc, ◌+◌, ◌-◌, ◌%◌, ◌≤◌, ◌<◌, bit_and, ◌≡◌, refl, ap, ◌∙◌, true, some, List, [], ◌∷◌, ◌++◌,
  map, arith, ltb, if◌then◌else◌, length, set, length-set, get_or-set,
}
use mathlib.Core.List.{map-append}
use native.Mathlib.Nat.{mod-eq_of_lt}
use ved_db_server.Prelude.Bits.{is_power_of_two, is_power_of_two_bounds}
use ved_db_server.Ring.Slot.{Slot}
use ved_db_server.Ring.Window.{
  window, length-window, window-set_before, window-set_after, window-pos,
}
use ved_db_server.Prelude.Bits.{bit_and-eq-mod}
use ved_db_server.Ring.Mpmc.{
  MpmcSlot, MpmcRing, new_slot, new_slots, init, returns, slot_at, try_push, try_pop,
}
use ved_db_server.Ring.Mpmc.Lifetime.{length-new_slots, get_or-new_slots}

-- What the sequence number of slot `i` says in the first lap: popped, full or still empty.
abbrev pub lap_sequence : ℕ → ℕ → ℕ → ℕ → ℕ
lap_sequence capacity head tail i =
    if ltb i tail then i + capacity else if ltb i head then i + 1 else i

pub record Lap (r : MpmcRing) : Type 0 where
  pub power : is_power_of_two r.capacity ≡ true
  pub masked : r.mask + 1 ≡ r.capacity
  pub allocated : length r.slots ≡ r.capacity
  pub first : r.head ≤ r.capacity
  pub ordered : r.tail ≤ r.head
  pub sequences :
      (i : ℕ) → i < r.capacity → (slot_at r i).sequence ≡ lap_sequence r.capacity r.head r.tail i

abbrev pub in_lap : MpmcRing → List MpmcSlot
in_lap r = window (new_slot 0) r.capacity r.slots r.tail (r.head - r.tail)

-- the data of the slots that were pushed and not popped
abbrev pub contents : MpmcRing → List Slot
contents r = map (λ s. s.slot_data) (in_lap r)

length-map_data : (xs : List MpmcSlot) → length (map (λ s. s.slot_data) xs) ≡ length xs
length-map_data [] = refl
length-map_data (x ∷ xs) = ap suc (length-map_data xs)

pub length-contents : (r : MpmcRing) → length (contents r) ≡ r.head - r.tail
length-contents r =
    length-map_data (in_lap r)
    ∙ length-window (new_slot 0) r.capacity r.slots r.tail (r.head - r.tail)

Lap-index :
    {r : MpmcRing} (i : ℕ) → Lap r → i < r.capacity → (bit_and i r.mask ≡ i) × (i % r.capacity ≡ i)
Lap-index {r} i v lt =
    (bit_and-eq-mod i r.mask r.capacity v.power v.masked ∙ mod-eq_of_lt lt, mod-eq_of_lt lt)

abbrev pub pushed_slot : MpmcRing → Slot → MpmcSlot
pushed_slot r s = record { sequence = r.head + 1; slot_data = s }

abbrev pub after_push : MpmcRing → Slot → MpmcRing
after_push r s = record r { head = r.head + 1; slots = set r.slots r.head (pushed_slot r s) }

pub try_push-Lap :
    {r : MpmcRing} (s : Slot)
    → Lap r
    → r.head < r.capacity
    → try_push r s ≡ (returns true, after_push r s)
unfolding try_push
try_push-Lap {r} s v h =
    ground
      (arith, Lap-index r.head v h, v.sequences r.head h, is_power_of_two_bounds r.capacity v.power)

pub after_push-Lap : {r : MpmcRing} (s : Slot) → Lap r → r.head < r.capacity → Lap (after_push r s)
after_push-Lap {r} s v h = record {
  power = v.power;
  masked = v.masked;
  allocated = length-set r.slots r.head (pushed_slot r s) ∙ v.allocated;
  first = omega arith;
  ordered = omega arith;
  sequences = λ i lt.
      ground (arith, v.sequences i lt, get_or-set r.slots r.head i (pushed_slot r s) (new_slot 0));
}

in_lap-after_push :
    {r : MpmcRing} (s : Slot)
    → Lap r
    → r.head < r.capacity
    → in_lap (after_push r s) ≡ in_lap r ++ (pushed_slot r s ∷ [])
in_lap-after_push {r} s v h = ground (
  arith,
  Lap-index r.head v h,
  window-set_after (new_slot 0) r.capacity r.slots r.tail r.head (r.head - r.tail)
      (pushed_slot r s),
)

pub contents-after_push :
    {r : MpmcRing} (s : Slot)
    → Lap r
    → r.head < r.capacity
    → contents (after_push r s) ≡ contents r ++ (s ∷ [])
contents-after_push {r} s v h =
    ap (map (λ s. s.slot_data)) (in_lap-after_push s v h)
    ∙ map-append (λ s. s.slot_data) (in_lap r) (pushed_slot r s ∷ [])

abbrev pub popped_slot : MpmcRing → MpmcSlot
popped_slot r = record (slot_at r r.tail) { sequence = r.tail + 1 + r.capacity - 1 }

abbrev pub after_pop : MpmcRing → MpmcRing
after_pop r = record r { tail = r.tail + 1; slots = set r.slots r.tail (popped_slot r) }

pub try_pop-Lap :
    {r : MpmcRing}
    → Lap r
    → r.tail < r.head
    → try_pop r ≡ (returns (some (slot_at r r.tail).slot_data), after_pop r)
unfolding try_pop
try_pop-Lap {r} v h = ground (
  arith,
  Lap-index r.tail v (omega arith),
  v.sequences r.tail (omega arith),
  is_power_of_two_bounds r.capacity v.power,
)

pub after_pop-Lap : {r : MpmcRing} → Lap r → r.tail < r.head → Lap (after_pop r)
after_pop-Lap {r} v h = record {
  power = v.power;
  masked = v.masked;
  allocated = length-set r.slots r.tail (popped_slot r) ∙ v.allocated;
  first = v.first;
  ordered = omega arith;
  sequences = λ i lt.
      ground (arith, v.sequences i lt, get_or-set r.slots r.tail i (popped_slot r) (new_slot 0));
}

in_lap-after_pop :
    {r : MpmcRing} → Lap r → r.tail < r.head → in_lap r ≡ slot_at r r.tail ∷ in_lap (after_pop r)
in_lap-after_pop {r} v h = ground (
  arith,
  Lap-index r.tail v (omega arith),
  window-pos (new_slot 0) r.capacity r.slots r.tail (r.head - r.tail),
  window-set_before (new_slot 0) r.capacity r.slots r.tail (suc r.tail) (r.head - suc r.tail)
      (popped_slot r),
)

pub contents-after_pop :
    {r : MpmcRing}
    → Lap r
    → r.tail < r.head
    → contents r ≡ (slot_at r r.tail).slot_data ∷ contents (after_pop r)
contents-after_pop {r} v h = ap (map (λ s. s.slot_data)) (in_lap-after_pop v h)

fresh-Lap :
    (capacity : ℕ)
    → is_power_of_two capacity ≡ true
    → Lap (record {
      head = 0;
      tail = 0;
      capacity = capacity;
      mask = capacity - 1;
      slots = new_slots 0 capacity;
    })
fresh-Lap capacity p = record {
  power = p;
  masked = omega (arith, is_power_of_two_bounds capacity p);
  allocated = length-new_slots 0 capacity;
  first = omega arith;
  ordered = omega arith;
  sequences = λ i lt. ground (arith, get_or-new_slots 0 capacity i lt);
}

pub init-Lap :
    (capacity : ℕ) {r : MpmcRing}
    → init capacity ≡ some r
    → Lap r × (r.head ≡ 0) × (r.tail ≡ 0) × (r.capacity ≡ capacity) × (contents r ≡ [])
unfolding init
init-Lap capacity e = ground (arith, fresh-Lap capacity)
