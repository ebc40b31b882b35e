-- ===== src/PubSub/Subscriber/Queue.antt =====
-- A subscriber's queue in pubsub/mod.rs keeps the latest messages.
use ved_db_server.Prelude.{
  ℕ, suc, ◌+◌, ◌-◌, ◌≤◌, ◌<◌, ◌≡◌, refl, ap, ◌∙◌, inl, inr, true, false, none, List, [], ◌∷◌, ◌++◌,
  arith, leb, leb→le, Bool-cases, length, drop, length-append,
}
use ved_db_server.Prelude.Bytes.{u64_mod, add64}
use ved_db_server.PubSub.Subscriber.{Message, Subscriber, pop_front, send, enqueue, deliver_message}

-- the deliveries of a list of messages, in order
unfoldable pub deliver_all : Subscriber → List Message → Subscriber
deliver_all s [] = s
deliver_all s (m ∷ ms) = deliver_all (deliver_message s m) ms

-- the last `n` elements of a list
abbrev pub latest {ℓ} : {A : Type ℓ} → ℕ → List A → List A
latest n xs = drop (length xs - n) xs

append-one {ℓ} :
    {A : Type ℓ} (xs : List A) (y : A) (ys : List A) → (xs ++ (y ∷ [])) ++ ys ≡ xs ++ (y ∷ ys)
append-one [] y ys = refl
append-one (x ∷ xs) y ys = ap (λ l. x ∷ l) (append-one xs y ys)

append_nil {ℓ} : {A : Type ℓ} (xs : List A) → xs ++ [] ≡ xs
append_nil [] = refl
append_nil (x ∷ xs) = ap (λ l. x ∷ l) (append_nil xs)

-- What one delivery to the queue does to the sequence of messages seen so far.
latest-pop_front :
    (n : ℕ) (queue : List Message) (m : Message) (ms : List Message)
    → 0 < n
    → length queue ≡ n
    → latest n ((pop_front queue ++ (m ∷ [])) ++ ms) ≡ latest n (queue ++ (m ∷ ms))
latest-pop_front n [] m ms h e = absurd (omega arith)
latest-pop_front n (x ∷ queue) m ms h e = rw (append-one queue m ms) (
    let one_less : length (x ∷ (queue ++ (m ∷ ms))) - n ≡ suc (length (queue ++ (m ∷ ms)) - n) =
      omega (arith, length-append queue (m ∷ ms)) in
    rw one_less refl)

-- the subscriber after a delivery that drops the oldest message, and after one that drops none
abbrev dropped : Subscriber → Message → Subscriber
dropped s m = record s {
  queue = pop_front s.queue ++ (m ∷ []);
  messages_dropped = add64 s.messages_dropped 1;
  messages_received = add64 s.messages_received 1;
}

abbrev queued : Subscriber → Message → Subscriber
queued s m = record s {
  queue = s.queue ++ (m ∷ []);
  messages_received = add64 s.messages_received 1;
}

deliver_message-dropped :
    (s : Subscriber) (m : Message)
    → s.sender ≡ none
    → leb s.max_queue_size (length s.queue) ≡ true
    → deliver_message s m ≡ dropped s m
unfolding deliver_message enqueue send
deliver_message-dropped s m none_sender full = ground arith

deliver_message-queued :
    (s : Subscriber) (m : Message)
    → s.sender ≡ none
    → leb s.max_queue_size (length s.queue) ≡ false
    → deliver_message s m ≡ queued s m
unfolding deliver_message enqueue send
deliver_message-queued s m none_sender room = ground arith

length-pop_front : (queue : List Message) → length (pop_front queue) ≡ length queue - 1
length-pop_front [] = omega arith
length-pop_front (m ∷ queue) = omega arith

-- A subscriber without a sender, whose buffer size is not 0 and whose queue is no longer than that,
-- holds the latest messages up to that size, oldest first; as long as the counters do not wrap,
-- every message counts as received, and those that no longer fit as dropped.
pub deliver_all-latest :
    (s : Subscriber) (ms : List Message)
    → s.sender ≡ none
    → 0 < s.max_queue_size
    → length s.queue ≤ s.max_queue_size
    → s.messages_received + length ms < u64_mod
    → s.messages_dropped + length ms < u64_mod
    → let t = deliver_all s ms in
      (t.queue ≡ latest s.max_queue_size (s.queue ++ ms))
      × (t.messages_received ≡ s.messages_received + length ms)
      × (t.messages_dropped ≡ s.messages_dropped + (length s.queue + length ms - s.max_queue_size))
unfolding deliver_all
deliver_all-latest s [] none_sender pos fit hr hd = (
  rw (append_nil s.queue)
      (let z : length s.queue - s.max_queue_size ≡ 0 = omega arith in rw z refl),
  omega arith,
  omega arith,
)
deliver_all-latest s (m ∷ ms) none_sender pos fit hr hd =
    elim (Bool-cases (leb s.max_queue_size (length s.queue))) [
      | inl full ↦
          let now_len : length (pop_front s.queue ++ (m ∷ [])) ≡ length (pop_front s.queue) + 1 =
            length-append (pop_front s.queue) (m ∷ []) in
          let popped_len : length (pop_front s.queue) ≡ length s.queue - 1 =
            length-pop_front s.queue in
          let top : s.max_queue_size ≤ length s.queue =
            leb→le s.max_queue_size (length s.queue) full in
          let (q, r, d) =
            deliver_all-latest (dropped s m) ms none_sender pos (omega arith) (omega arith)
              (omega arith) in
          rw (deliver_all, deliver_message-dropped s m none_sender full)
            (
              q ∙ latest-pop_front s.max_queue_size s.queue m ms pos (omega arith),
              r ∙ omega arith,
              d ∙ omega arith,
            )
      | inr room ↦
          let now_len : length (s.queue ++ (m ∷ [])) ≡ length s.queue + 1 =
            length-append s.queue (m ∷ []) in
          let below : length s.queue < s.max_queue_size = ground arith in
          let (q, r, d) =
            deliver_all-latest (queued s m) ms none_sender pos (omega arith) (omega arith)
              (omega arith) in
          rw (deliver_all, deliver_message-queued s m none_sender room)
            (
              q ∙ ap (latest s.max_queue_size) (append-one s.queue m ms),
              r ∙ omega arith,
              d ∙ omega arith,
            )
    ]
