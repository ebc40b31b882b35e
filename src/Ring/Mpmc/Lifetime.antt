-- ===== src/Ring/Mpmc/Lifetime.antt =====
-- How many pushes an MPMC ring accepts in its life.
use ved_db_server.Prelude.{
  ℕ, zero, suc, ◌+◌, ◌-◌, ◌≤◌, ◌<◌, min, bit_and, ◌≡◌, refl, ap, Bool, true, some, List, [], ◌∷◌,
  arith, ltb, leb, ◌==◌, length, get_or, length-set, get_or-set,
}
use native.Mathlib.Nat.{mod-lt, mod-eq_of_lt}
use ved_db_server.Prelude.Bits.{is_power_of_two, is_power_of_two_bounds}
use ved_db_server.Prelude.Bytes.{u64_mod}
use ved_db_server.Ring.Slot.{Slot}
use ved_db_server.Prelude.Bits.{bit_and-eq-mod}
use ved_db_server.Ring.Queue.{Call, push, pop, pushes}
use ved_db_server.Ring.Mpmc.{
  MpmcSlot, Outcome, returns, try_pop, MpmcRing, new_slot, new_slots, init, returns, slot_at,
  try_push,
}

-- A slot that no push has claimed yet has its index for a sequence number, and any other has a
-- larger number for ever.
abbrev pub IsClaimed : ℕ → ℕ → ℕ → Type 0
IsClaimed head i seq = (i ≤ seq) × ((seq == i) ≡ leb head i)

pub record Inv (r : MpmcRing) : Type 0 where
  pub power : is_power_of_two r.capacity ≡ true
  pub masked : r.mask + 1 ≡ r.capacity
  pub allocated : length r.slots ≡ r.capacity
  pub claimed : (i : ℕ) → i < r.capacity → IsClaimed r.head i (slot_at r i).sequence

pub length-new_slots : (i n : ℕ) → length (new_slots i n) ≡ n
length-new_slots i zero = refl
length-new_slots i (suc n) = ap suc (length-new_slots (suc i) n)

pub get_or-new_slots :
    (i n j : ℕ) → j < n → (get_or (new_slots i n) j (new_slot 0)).sequence ≡ i + j
get_or-new_slots i zero j h = absurd (omega arith)
get_or-new_slots i (suc n) zero h = omega arith
get_or-new_slots i (suc n) (suc j) h = omega (arith, get_or-new_slots (suc i) n j (omega arith))

fresh-Inv :
    (capacity : ℕ)
    → is_power_of_two capacity ≡ true
    → Inv (record {
      head = 0;
      tail = 0;
      capacity = capacity;
      mask = capacity - 1;
      slots = new_slots 0 capacity;
    })
fresh-Inv capacity p = record {
  power = p;
  masked = omega (arith, is_power_of_two_bounds capacity p);
  allocated = length-new_slots 0 capacity;
  claimed = λ i lt. ground (arith, get_or-new_slots 0 capacity i lt);
}

pub init-Inv :
    (capacity : ℕ) {r : MpmcRing}
    → init capacity ≡ some r
    → Inv r × (r.head ≡ 0) × (r.tail ≡ 0) × (r.capacity ≡ capacity)
unfolding init
init-Inv capacity h = ground (arith, fresh-Inv capacity)

index_lt_capacity : {r : MpmcRing} (i : ℕ) → Inv r → bit_and i r.mask < r.capacity
index_lt_capacity {r} i v =
    rw (bit_and-eq-mod i r.mask r.capacity v.power v.masked)
      (mod-lt i (is_power_of_two_bounds r.capacity v.power).0)

push_index : {r : MpmcRing} (i : ℕ) → Inv r → i < r.capacity → bit_and i r.mask ≡ i
push_index {r} i v lt = rw (bit_and-eq-mod i r.mask r.capacity v.power v.masked) (mod-eq_of_lt lt)

-- A push succeeds exactly if fewer than `capacity` were made before it, and keeps the invariant.
pub try_push_result :
    {r : MpmcRing} (s : Slot) → Inv r → (try_push r s).0 ≡ returns (ltb r.head r.capacity)
unfolding try_push
try_push_result {r} s v = ground (
  arith,
  v.claimed (bit_and r.head r.mask) (index_lt_capacity r.head v),
  index_lt_capacity r.head v,
  push_index r.head v,
)

try_push-IsClaimed :
    {r : MpmcRing} (s : Slot)
    → Inv r
    → r.head + 1 < u64_mod
    → (i : ℕ) → i < r.capacity
    → IsClaimed (r.head + 1) i (slot_at (try_push r s).1 i).sequence
unfolding try_push
try_push-IsClaimed {r} s v h i lt = ground (
  arith,
  v.claimed i lt,
  v.claimed (bit_and r.head r.mask) (index_lt_capacity r.head v),
  index_lt_capacity r.head v,
  push_index r.head v,
  get_or-set r.slots (bit_and r.head r.mask) i
      (record { sequence = bit_and r.head r.mask + 1; slot_data = s }) (new_slot 0),
)

pub try_push-Inv :
    {r : MpmcRing} (s : Slot)
    → Inv r
    → r.head + 1 < u64_mod
    → Inv (try_push r s).1
      × ((try_push r s).1.head ≡ r.head + 1)
      × ((try_push r s).1.capacity ≡ r.capacity)
unfolding try_push
try_push-Inv {r} s v h =
    let e : (try_push r s).1.head ≡ r.head + 1 = ground arith in
    let c : (try_push r s).1.capacity ≡ r.capacity = ground arith in
    (
      record {
        power = rw c v.power;
        masked = ground arith;
        allocated = ground (
          arith,
          length-set r.slots (bit_and r.head r.mask)
              (record { sequence = bit_and r.head r.mask + 1; slot_data = s }),
        );
        claimed = λ i lt. rw e (try_push-IsClaimed s v h i (omega arith));
      },
      e,
      c,
    )

popped_slot : MpmcRing → MpmcSlot
popped_slot r = record (slot_at r (bit_and r.tail r.mask)) {
  sequence = bit_and r.tail r.mask + 1 + r.capacity - 1;
}

pub try_pop-Inv :
    {r : MpmcRing}
    → Inv r
    → Inv (try_pop r).1 × ((try_pop r).1.head ≡ r.head) × ((try_pop r).1.capacity ≡ r.capacity)
unfolding try_pop popped_slot
try_pop-Inv {r} v =
    let e : (try_pop r).1.head ≡ r.head = ground arith in
    let c : (try_pop r).1.capacity ≡ r.capacity = ground arith in
    (
      record {
        power = rw c v.power;
        masked = ground arith;
        allocated = ground (arith, length-set r.slots (bit_and r.tail r.mask) (popped_slot r));
        claimed = λ i lt. rw e (
            ground (
              arith,
              v.claimed i (omega arith),
              v.claimed (bit_and r.tail r.mask) (index_lt_capacity r.tail v),
              index_lt_capacity r.tail v,
              get_or-set r.slots (bit_and r.tail r.mask) i (popped_slot r) (new_slot 0),
            ));
      },
      e,
      c,
    )

count_true : Outcome Bool → ℕ
count_true (returns true) = 1
count_true _ = 0

-- How many pushes of a sequence of calls, each run to its end or to its endless loop, return true.
pub accepted : MpmcRing → List (Call Slot) → ℕ
accepted r [] = 0
accepted r (push s ∷ calls) = let (done, r') = try_push r s in count_true done + accepted r' calls
accepted r (pop ∷ calls) = accepted (try_pop r).1 calls

accepted-eq-min :
    (calls : List (Call Slot)) {r : MpmcRing}
    → Inv r
    → r.head + length calls < u64_mod
    → accepted r calls ≡ min (pushes calls) (r.capacity - r.head)
unfolding accepted count_true
accepted-eq-min [] v h = omega arith
accepted-eq-min (push s ∷ calls) {r} v h =
    let (v', e, c) = try_push-Inv s v (omega arith) in
    ground (arith, try_push_result s v, accepted-eq-min calls v' (omega arith))
accepted-eq-min (pop ∷ calls) v h =
    let (v', e, c) = try_pop-Inv v in ground (arith, accepted-eq-min calls v' (omega arith))

-- Of any sequence of fewer than 2^64 calls on a new ring, the first `capacity` pushes are
-- accepted and no other, however many slots are popped in between: a ring is used up for good
-- after one lap.
pub one_lap_only :
    (capacity : ℕ) {r : MpmcRing} (calls : List (Call Slot))
    → init capacity ≡ some r
    → length calls < u64_mod
    → accepted r calls ≡ min (pushes calls) capacity
one_lap_only capacity calls e h =
    let (v, head, tail, c) = init-Inv capacity e in
    omega (arith, accepted-eq-min calls v (omega arith))
