-- ===== src/Ring/Mpmc.antt =====
-- `MpmcRing` of ring/mpmc.rs, one call at a time. `spins` is the result of a call whose wait loop
-- reads the same sequence number for ever unless another thread changes it.
pub mod Lifetime
mod LapSteps
pub mod FirstLap
use ved_db_server.Prelude.{
  ℕ, zero, suc, ◌+◌, ◌-◌, ◌*◌, ◌/◌, ◌%◌, ◌^◌, ◌≤◌, ◌<◌, min, max, bit_and, bit_xor, ◌≡◌, refl, sym,
  ap, ap₂, subst, ◌∙◌, ◌≢◌, ◌↔◌, ◌⊎◌, inl, inr, Bool, true, false, not, ◌&&◌, ◌||◌, Option, none,
  some, List, [], ◌∷◌, ◌++◌, map, arith, ltb, leb, ◌==◌, if◌then◌else◌, ltb→lt, lt→ltb, leb→le,
  le→leb, ==_iff, Bool-cases, Option-cases, length, get_elem?, get_or, set, take, drop, replicate,
  All, length-append, length-replicate, length-set, get_or-set_self, get_or-set_ne, get_or-set,
  take-append_length, length-drop, All-append, All-drop,
}
use ved_db_server.Prelude.Bits.{is_power_of_two}
use ved_db_server.Prelude.Bytes.{add64, saturating_sub}
use ved_db_server.Ring.Slot
use ved_db_server.Ring.Slot.{Slot}

pub record MpmcSlot : Type 0 where
  pub sequence : ℕ
  pub slot_data : Slot

abbrev pub new_slot : ℕ → MpmcSlot
new_slot seq = record { sequence = seq; slot_data = Slot.empty }

pub record MpmcRing : Type 0 where
  pub head : ℕ
  pub tail : ℕ
  pub capacity : ℕ
  pub mask : ℕ
  pub slots : List MpmcSlot

-- the slots `i`, `i + 1`, … of the loop in `init`
abbrev pub new_slots : ℕ → ℕ → List MpmcSlot
new_slots i zero = []
new_slots i (suc n) = new_slot i ∷ new_slots (suc i) n

-- `none` is the panic of the assertion.
unfoldable pub init : ℕ → Option MpmcRing
init capacity =
    if is_power_of_two capacity
    then some (record {
      head = 0;
      tail = 0;
      capacity = capacity;
      mask = capacity - 1;
      slots = new_slots 0 capacity;
    })
    else none

pub data Outcome {ℓ} (A : Type ℓ) : Type ℓ where
  returns : A → Outcome A
  spins : Outcome A

abbrev pub map_outcome {ℓ κ} : {A : Type ℓ} {B : Type κ} → (A → B) → Outcome A → Outcome B
map_outcome f (returns a) = returns (f a)
map_outcome f spins = spins

abbrev pub slot_at : MpmcRing → ℕ → MpmcSlot
slot_at r i = get_or r.slots i (new_slot 0)

-- The branches of the wait loop of `try_push`, at the slot `idx`, whose sequence number is `seq`.
push_at : MpmcRing → Slot → ℕ → ℕ → Outcome Bool × MpmcRing
push_at r item idx seq =
    if seq == idx
    then (
      returns true,
      record r { slots = set r.slots idx (record { sequence = idx + 1; slot_data = item }) },
    )
    else if ltb seq idx
    then (spins, r)
    else (returns false, r)

unfoldable pub try_push : MpmcRing → Slot → Outcome Bool × MpmcRing
unfolding push_at
try_push r item =
    let idx = bit_and r.head r.mask in
    push_at (record r { head = add64 r.head 1 }) item idx (slot_at r idx).sequence

-- The branches of the wait loop of `try_pop`, at the slot `idx` that holds `found`.
pop_at : MpmcRing → ℕ → MpmcSlot → Outcome (Option Slot) × MpmcRing
pop_at r idx found =
    if found.sequence == idx + 1
    then (
      returns (some found.slot_data),
      record r { slots = set r.slots idx (record found { sequence = idx + 1 + r.capacity - 1 }) },
    )
    else if ltb found.sequence (idx + 1)
    then (returns none, r)
    else (spins, r)

unfoldable pub try_pop : MpmcRing → Outcome (Option Slot) × MpmcRing
unfolding pop_at
try_pop r =
    let idx = bit_and r.tail r.mask in
    pop_at (record r { tail = add64 r.tail 1 }) idx (slot_at r idx)

unfoldable pub len : MpmcRing → ℕ
len r = saturating_sub r.head r.tail

unfoldable pub is_empty : MpmcRing → Bool
unfolding len
is_empty r = len r == 0

unfoldable pub is_full : MpmcRing → Bool
unfolding len
is_full r = leb r.capacity (len r)
