-- ===== src/Ring/Spsc/Threads/Safety.antt =====
-- What the two threads can rely on in every interleaving.
use ved_db_server.Prelude.{
  ℕ, ◌+◌, ◌≤◌, ◌<◌, ◌≡◌, refl, sym, ap, ◌∙◌, ◌≢◌, false, some, List, [], ◌∷◌, ◌++◌, arith, leb,
  length, length-append,
}
use ved_db_server.Prelude.Bytes.{u64_mod, sub64}
use ved_db_server.Ring.Slot.{Slot}
use ved_db_server.Ring.Window.{mod-ne}
use ved_db_server.Ring.Spsc.{SpscRing, slot_index, init}
use ved_db_server.Ring.Spsc.Valid.{init-IsValid, slot_index-eq-mod}
use ved_db_server.Ring.Spsc.Threads.{
  ProducerPc, ConsumerPc, taken, Produce, Consume, System, Step, by_producer, by_consumer, started,
  Reach, here, next,
}
use ved_db_server.Ring.Spsc.Threads.Invariant.{in_flight, Inv}
use ved_db_server.Ring.Spsc.Threads.Keeps.{Produce-Inv, Consume-Inv}

Produce-sent :
    {r r' : SpscRing} {p p' : ProducerPc} {sent sent' : List Slot}
    → Produce r sent p r' p' sent'
    → length sent ≤ length sent'
Produce-sent (Produce.start slot) = omega arith
Produce-sent {sent} (Produce.publish {slot = slot}) = omega (arith, length-append sent (slot ∷ []))
Produce-sent _ = omega arith

Step-sent : {s t : System} → Step s t → length s.sent ≤ length t.sent
Step-sent (by_producer m) = Produce-sent m
Step-sent (by_consumer m) = omega arith

abbrev SystemInv : System → Type 0
SystemInv s = Inv s.ring s.producer s.consumer s.sent s.received

Step-Inv : {s t : System} → Step s t → length t.sent < u64_mod → SystemInv s → SystemInv t
Step-Inv (by_producer m) h i = Produce-Inv m h i
Step-Inv (by_consumer m) h i = Consume-Inv m i

started-Inv : (capacity : ℕ) {r : SpscRing} → init capacity ≡ some r → SystemInv (started r)
unfolding init
started-Inv capacity h = let (v, _, _) = init-IsValid capacity h in ground arith

pub Reach-Inv :
    (capacity : ℕ) {r : SpscRing} {s : System}
    → init capacity ≡ some r
    → Reach r s
    → length s.sent < u64_mod
    → SystemInv s
Reach-Inv capacity e here h = started-Inv capacity e
Reach-Inv capacity e (next reach step) h =
    Step-Inv step h (Reach-Inv capacity e reach (omega (arith, Step-sent step)))

Produce-capacity :
    {r r' : SpscRing} {p p' : ProducerPc} {sent sent' : List Slot}
    → Produce r sent p r' p' sent'
    → r'.capacity ≡ r.capacity
Produce-capacity (Produce.start slot) = refl
Produce-capacity _ = refl

Consume-capacity :
    {r r' : SpscRing} {c c' : ConsumerPc} {received received' : List Slot}
    → Consume r received c r' c' received'
    → r'.capacity ≡ r.capacity
Consume-capacity Consume.start = refl
Consume-capacity _ = refl

Reach-capacity : {r : SpscRing} {s : System} → Reach r s → s.ring.capacity ≡ r.capacity
Reach-capacity here = refl
Reach-capacity (next reach (by_producer m)) = Produce-capacity m ∙ Reach-capacity reach
Reach-capacity (next reach (by_consumer m)) = Consume-capacity m ∙ Reach-capacity reach

in_flight-le-capacity :
    {r : SpscRing} {p : ProducerPc} {c : ConsumerPc} {sent received : List Slot}
    → Inv r p c sent received
    → length (in_flight r c) ≤ r.capacity
in_flight-le-capacity {r} {c} {received} i =
    omega (arith, ap length i.fifo, length-append received (in_flight r c))

-- In every interleaving of the two threads, as long as fewer than 2^64 slots were sent, the slots
-- that the consumer has received are the first ones that the producer sent, in their order, each
-- once, and those still missing number at most the ring's capacity.
pub first_in_first_out :
    (capacity : ℕ) {r : SpscRing} {s : System}
    → init capacity ≡ some r
    → Reach r s
    → length s.sent < u64_mod
    → (rest : List Slot) × (s.sent ≡ s.received ++ rest) × (length rest ≤ capacity)
first_in_first_out capacity {r} {s} e reach h =
    let i : SystemInv s = Reach-Inv capacity e reach h in
    let (_, c, _) = init-IsValid capacity e in
    (
      in_flight s.ring s.consumer,
      i.fifo,
      omega (arith, in_flight-le-capacity i, Reach-capacity reach, c),
    )

-- The next step of the producer writes the slot of index `i`.
abbrev pub Writes : SpscRing → ProducerPc → ℕ → Type 0
Writes r (ProducerPc.knows_both slot own other) i =
    (leb r.capacity (sub64 own other) ≡ false) × (own ≡ i)
Writes r _ i = ⊥

-- The next step of the consumer reads or clears the slot of index `i`.
abbrev pub Touches : ConsumerPc → ℕ → Type 0
Touches (ConsumerPc.knows_both own other) i = (leb other own ≡ false) × (own ≡ i)
Touches (taken own slot) i = own ≡ i
Touches _ i = ⊥

distinct_slots :
    {r : SpscRing} {sent received : List Slot} (p : ProducerPc) (c : ConsumerPc) (i j : ℕ)
    → Inv r p c sent received
    → Writes r p i
    → Touches c j
    → (j < i) × (i < j + r.capacity)
distinct_slots (ProducerPc.knows_both slot own other) (ConsumerPc.knows_both own' other') i j inv w
      t =
    ground arith
distinct_slots (ProducerPc.knows_both slot own other) (taken own' slot') i j inv w t = ground arith
distinct_slots (ProducerPc.knows_both slot own other) c i j inv w t = absurd t
distinct_slots p c i j inv w t = absurd w

-- In no interleaving of fewer than 2^64 sends is the producer about to write the slot that the
-- consumer is about to read or to clear.
pub race_free :
    (capacity : ℕ) {r : SpscRing} {s : System} (i j : ℕ)
    → init capacity ≡ some r
    → Reach r s
    → length s.sent < u64_mod
    → Writes s.ring s.producer i
    → Touches s.consumer j
    → slot_index s.ring i ≢ slot_index s.ring j
race_free capacity {s} i j e reach h w t =
    let inv : SystemInv s = Reach-Inv capacity e reach h in
    let (lo, hi) = distinct_slots s.producer s.consumer i j inv w t in
    rw (slot_index-eq-mod i inv.valid, slot_index-eq-mod j inv.valid)
      (λ p. mod-ne s.ring.capacity j i lo hi (sym p))
