-- ===== src/Ring/Tests.antt =====
-- Runs of the rings at concrete inputs.
use ved_db_server.Prelude.{
  ℕ, ◌≤◌, ◌≡◌, refl, ◌≢◌, true, false, none, some, List, [], ◌∷◌, ◌++◌, map, arith, length,
  replicate,
}
use ved_db_server.Prelude.Bits.{is_power_of_two}
use ved_db_server.Ring.Slot
use ved_db_server.Ring.Slot.{
  Slot, inline_data, arena_offset, get_inline_data, get_arena_offset, is_inline,
}
use ved_db_server.Ring.Queue
use ved_db_server.Ring.Queue.{Call, push, pop, pushed, popped, pushes}
use ved_db_server.Ring.Spsc
use ved_db_server.Ring.Spsc.{SpscRing, slot_index}
use ved_db_server.Ring.Spsc.Valid
use ved_db_server.Ring.Spsc.Valid.{contents}
use ved_db_server.Ring.Spsc.Refine
use ved_db_server.Ring.Spsc.Refine.{run_refines}
use ved_db_server.Ring.Spsc.Threads.{
  ProducerPc, ConsumerPc, Produce, Consume, System, by_producer, by_consumer, Reach, here, next,
}
use ved_db_server.Ring.Spsc.Threads.Safety.{first_in_first_out, race_free}
use ved_db_server.Ring.Mpmc
use ved_db_server.Ring.Mpmc.{MpmcRing, new_slots, returns}
use ved_db_server.Ring.Mpmc.Lifetime.{accepted, one_lap_only}
use ved_db_server.Ring.Mpmc.FirstLap
use ved_db_server.Ring.Mpmc.FirstLap.{first_lap_refines}

abbrev slot : ℕ → Slot
slot n = record { len = 100; data_or_offset = n }

abbrev spsc : SpscRing
spsc = record {
  producer_index = 0;
  consumer_index = 0;
  capacity = 2;
  mask = 1;
  slots = replicate 2 Slot.empty;
}

spsc-init : Spsc.init 2 ≡ some spsc
unfolding Spsc.init is_power_of_two
spsc-init = refl

abbrev calls : List (Call Slot)
calls = push (slot 1) ∷ push (slot 2) ∷ push (slot 3) ∷ pop ∷ push (slot 4) ∷ pop ∷ pop ∷ pop ∷ []

-- The third push finds the ring full, the last pop finds it empty, and the indices go round.
run-calls :
    Queue.run 2 [] calls
    ≡ pushed true
      ∷ pushed true
      ∷ pushed false
      ∷ popped (some (slot 1))
      ∷ pushed true
      ∷ popped (some (slot 2))
      ∷ popped (some (slot 4))
      ∷ popped none
      ∷ []
unfolding Queue.run Queue.enqueue Queue.dequeue
run-calls = refl

spsc-IsValid : Valid.IsValid spsc
spsc-IsValid = (Valid.init-IsValid 2 spsc-init).0

run_refines_example : Refine.run spsc calls ≡ Queue.run 2 [] calls
run_refines_example = run_refines calls spsc-IsValid (omega arith)

abbrev mpmc : MpmcRing
mpmc = record { head = 0; tail = 0; capacity = 2; mask = 1; slots = new_slots 0 2 }

mpmc-init : Mpmc.init 2 ≡ some mpmc
unfolding Mpmc.init is_power_of_two
mpmc-init = refl

abbrev two_rounds : List (Call Slot)
two_rounds = push (slot 1) ∷ push (slot 2) ∷ pop ∷ pop ∷ push (slot 3) ∷ push (slot 4) ∷ []

one_lap_only_example : accepted mpmc two_rounds ≡ 2
one_lap_only_example = one_lap_only 2 two_rounds mpmc-init (omega arith)

abbrev one_round : List (Call Slot)
one_round = push (slot 1) ∷ pop ∷ push (slot 2) ∷ pop ∷ []

first_lap_refines_example : FirstLap.run mpmc one_round ≡ map returns (Queue.run 2 [] one_round)
first_lap_refines_example = first_lap_refines 2 one_round mpmc-init (omega arith) tt

-- Slot 1 was sent; the producer is about to write slot 2, the consumer to read slot 1.
abbrev contended : System
contended = record {
  ring = record {
    producer_index = 1;
    consumer_index = 0;
    capacity = 2;
    mask = 1;
    slots = slot 1 ∷ Slot.empty ∷ [];
  };
  producer = ProducerPc.knows_both (slot 2) 1 0;
  consumer = ConsumerPc.knows_both 0 1;
  sent = slot 1 ∷ [];
  received = [];
}

sent_one : Reach spsc contended
sent_one =
    next
      (next
        (next
          (next
            (next
              (next
                (next (next here (by_producer (Produce.start (slot 1)))) (by_producer Produce.load))
                (by_producer (Produce.write refl)))
              (by_producer Produce.publish))
            (by_consumer Consume.start))
          (by_consumer Consume.load))
        (by_producer (Produce.start (slot 2))))
      (by_producer Produce.load)

first_in_first_out_example : (rest : List Slot) × ((slot 1 ∷ []) ≡ [] ++ rest) × (length rest ≤ 2)
first_in_first_out_example = first_in_first_out 2 spsc-init sent_one (omega arith)

race_free_example : slot_index contended.ring 1 ≢ slot_index contended.ring 0
race_free_example = race_free 2 1 0 spsc-init sent_one (omega arith) (refl, refl) (refl, refl)
