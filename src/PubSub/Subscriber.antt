-- ===== src/PubSub/Subscriber.antt =====
-- `Message` and `Subscriber` of pubsub/mod.rs. Strings are lists of bytes.
pub mod Queue
use ved_db_server.Prelude.{
  ℕ, zero, suc, ◌+◌, ◌-◌, ◌*◌, ◌/◌, ◌%◌, ◌^◌, ◌≤◌, ◌<◌, min, max, bit_and, bit_xor, ◌≡◌, refl, sym,
  ap, ap₂, subst, ◌∙◌, ◌≢◌, ◌↔◌, ◌⊎◌, inl, inr, Bool, true, false, not, ◌&&◌, ◌||◌, Option, none,
  some, List, [], ◌∷◌, ◌++◌, map, arith, ltb, leb, ◌==◌, if◌then◌else◌, ltb→lt, lt→ltb, leb→le,
  le→leb, ==_iff, Bool-cases, Option-cases, length, get_elem?, get_or, set, take, drop, replicate,
  All, length-append, length-replicate, length-set, get_or-set_self, get_or-set_ne, get_or-set,
  get_or-replicate, take-append_length, length-drop, All-append, All-drop,
}
use ved_db_server.Prelude.Bytes.{u64_mod, add64}

pub record Message : Type 0 where
  pub channel : List ℕ
  pub payload : List ℕ
  pub timestamp : ℕ
  pub id : ℕ

-- The receiving end of an unbounded `mpsc` channel: a send fails once it is closed.
pub record Receiver : Type 0 where
  pub is_open : Bool
  pub inbox : List Message

pub record Subscriber : Type 0 where
  pub id : ℕ
  pub queue : List Message
  pub max_queue_size : ℕ
  pub sender : Option Receiver
  pub messages_received : ℕ
  pub messages_dropped : ℕ

-- `Subscriber::new` and, with a sender, `Subscriber::with_sender`
abbrev pub new : ℕ → ℕ → Option Receiver → Subscriber
new id max_queue_size sender = record {
  id = id;
  queue = [];
  max_queue_size = max_queue_size;
  sender = sender;
  messages_received = 0;
  messages_dropped = 0;
}

-- `pop_front` with its result left out
abbrev pub pop_front : List Message → List Message
pop_front [] = []
pop_front (m ∷ queue) = queue

-- `sender.send(message)`: the sender with the message, or `none` if it fails
unfoldable pub send : Option Receiver → Message → Option Receiver
send none message = none
send (some receiver) message =
    if receiver.is_open
    then some (record receiver { inbox = receiver.inbox ++ (message ∷ []) })
    else none

-- the delivery to the queue
unfoldable pub enqueue : Subscriber → Message → Subscriber
enqueue s message =
    if leb s.max_queue_size (length s.queue)
    then record s {
      queue = pop_front s.queue ++ (message ∷ []);
      messages_dropped = add64 s.messages_dropped 1;
      messages_received = add64 s.messages_received 1;
    }
    else record s {
      queue = s.queue ++ (message ∷ []);
      messages_received = add64 s.messages_received 1;
    }

-- It has no failure, so the new subscriber is the whole result.
unfoldable pub deliver_message : Subscriber → Message → Subscriber
deliver_message s message = elim (send s.sender message) [
  | some receiver ↦ record s {
    sender = some receiver;
    messages_received = add64 s.messages_received 1;
  }
  | none ↦ enqueue s message
]

unfoldable pub take_next : List Message → Option Message
take_next [] = none
take_next (m ∷ queue) = some m

unfoldable pub get_next_message : Subscriber → Option Message × Subscriber
unfolding take_next
get_next_message s = (take_next s.queue, record s { queue = pop_front s.queue })

unfoldable pub queue_len : Subscriber → ℕ
queue_len s = length s.queue
