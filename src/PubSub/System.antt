-- ===== src/PubSub/System.antt =====
-- `Channel`, `PatternSubscription` and `PubSubSystem` of pubsub/mod.rs. A subscriber is one shared
-- object: the channels hold its id, and the system's list holds its state. The maps are lists with
-- one element for each key, in the order of insertion. The regular-expression package is the
-- parameter `compile`, which gives the match test of a pattern or refuses it, and the clock is
-- an argument of `publish`.
pub mod Membership
use ved_db_server.Prelude.{
  ℕ, suc, ◌+◌, Bool, true, false, ◌&&◌, ◌||◌, Option, none, some, List, [], ◌∷◌, ◌++◌, ltb, ◌==◌,
  if◌then◌else◌, length,
}
use ved_db_server.Prelude.Bytes.{add64, sub64}
use ved_db_server.Kv.Hash.{bytes_equal}
use ved_db_server.PubSub.Subscriber
use ved_db_server.PubSub.Subscriber.{Message, Subscriber, deliver_message}

pub data PubSubError : Type 0 where
  channel_not_found : PubSubError
  subscriber_not_found : PubSubError
  message_too_large : PubSubError
  invalid_pattern : PubSubError
  queue_full : PubSubError
  system_error : List ℕ → PubSubError

pub data Result (A : Type 0) : Type 0 where
  ok : A → Result A
  err : PubSubError → Result A

pub record Channel : Type 0 where
  pub name : List ℕ
  pub members : List ℕ
  pub message_count : ℕ
  pub subscriber_count : ℕ

abbrev pub new_channel : List ℕ → Channel
new_channel name = record { name = name; members = []; message_count = 0; subscriber_count = 0 }

unfoldable pub has_member : ℕ → List ℕ → Bool
has_member id [] = false
has_member id (x ∷ xs) = x == id || has_member id xs

unfoldable pub without_member : ℕ → List ℕ → List ℕ
without_member id [] = []
without_member id (x ∷ xs) = let rest = without_member id xs in if x == id then rest else x ∷ rest

-- An id that is there already keeps its place and is not counted.
unfoldable pub add_subscriber : Channel → ℕ → Channel
add_subscriber c id = if has_member id c.members then c else record c {
  members = c.members ++ (id ∷ []);
  subscriber_count = add64 c.subscriber_count 1;
}

unfoldable pub remove_subscriber : Channel → ℕ → Bool × Channel
remove_subscriber c id =
    if has_member id c.members
    then (
      true,
      record c {
        members = without_member id c.members;
        subscriber_count = sub64 c.subscriber_count 1;
      },
    )
    else (false, c)

pub record PatternSubscription : Type 0 where
  pub subscriber_id : ℕ
  pub pattern : List ℕ → Bool
  pub pattern_str : List ℕ

-- `str::replace` of one character by a string
unfoldable pub replace_char : ℕ → List ℕ → List ℕ → List ℕ
replace_char c by [] = []
replace_char c by (x ∷ xs) =
    let rest = replace_char c by xs in if x == c then by ++ rest else x ∷ rest

-- `*` becomes `.*`, `?` becomes `.`, and the whole is put between `^` and `$`.
unfoldable pub regex_pattern : List ℕ → List ℕ
unfolding replace_char
regex_pattern pattern =
    94 ∷ (replace_char 63 (46 ∷ []) (replace_char 42 (46 ∷ 42 ∷ []) pattern) ++ (36 ∷ []))

pub record PubSubSystem : Type 0 where
  pub channels : List Channel
  pub subscribers : List Subscriber
  pub pattern_subscriptions : List PatternSubscription
  pub max_message_size : ℕ
  pub default_buffer_size : ℕ
  pub total_messages_published : ℕ
  pub total_messages_delivered : ℕ
  pub message_counter : ℕ  -- MESSAGE_COUNTER

abbrev pub new_system : ℕ → ℕ → PubSubSystem
new_system max_message_size default_buffer_size = record {
  channels = [];
  subscribers = [];
  pattern_subscriptions = [];
  max_message_size = max_message_size;
  default_buffer_size = default_buffer_size;
  total_messages_published = 0;
  total_messages_delivered = 0;
  message_counter = 1;
}

unfoldable pub find_channel : List ℕ → List Channel → Option Channel
find_channel name [] = none
find_channel name (c ∷ cs) =
    let rest = find_channel name cs in if bytes_equal c.name name then some c else rest

-- the channels with `f` done to the one of that name
unfoldable pub at_channel : (Channel → Channel) → List ℕ → List Channel → List Channel
at_channel f name [] = []
at_channel f name (c ∷ cs) = (if bytes_equal c.name name then f c else c) ∷ at_channel f name cs

unfoldable pub find_subscriber : ℕ → List Subscriber → Option Subscriber
find_subscriber id [] = none
find_subscriber id (s ∷ ss) =
    let rest = find_subscriber id ss in if s.id == id then some s else rest

-- the delivery to the subscriber with that id
unfoldable pub deliver_to : ℕ → Message → List Subscriber → List Subscriber
deliver_to id m [] = []
deliver_to id m (s ∷ ss) = (if s.id == id then deliver_message s m else s) ∷ deliver_to id m ss

unfoldable pub get_or_create_channel : PubSubSystem → List ℕ → PubSubSystem
get_or_create_channel p name = elim (find_channel name p.channels) [
  | some c ↦ p
  | none ↦ record p { channels = p.channels ++ (new_channel name ∷ []) }
]

unfoldable pub get_or_create_subscriber : PubSubSystem → ℕ → PubSubSystem
get_or_create_subscriber p id = elim (find_subscriber id p.subscribers) [
  | some s ↦ p
  | none ↦ record p {
    subscribers = p.subscribers ++ (Subscriber.new id p.default_buffer_size none ∷ []);
  }
]

unfoldable pub subscribe : PubSubSystem → ℕ → List ℕ → PubSubSystem
subscribe p id name =
    let q = get_or_create_channel (get_or_create_subscriber p id) name in
    record q { channels = at_channel (λ c. add_subscriber c id) name q.channels }

unfoldable pub unsubscribe : PubSubSystem → ℕ → List ℕ → Bool × PubSubSystem
unsubscribe p id name = elim (find_channel name p.channels) [
  | none ↦ (false, p)
  | some c ↦ (
    (remove_subscriber c id).0,
    record p { channels = at_channel (λ x. (remove_subscriber x id).1) name p.channels },
  )
]

-- The subscriber is created even if the pattern is refused.
unfoldable pub psubscribe :
    (List ℕ → Option (List ℕ → Bool)) → PubSubSystem → ℕ → List ℕ → Result Unit × PubSubSystem
psubscribe compile p id pattern =
    let q = get_or_create_subscriber p id in
    elim (compile (regex_pattern pattern)) [
      | none ↦ (err invalid_pattern, q)
      | some test ↦ (
        ok tt,
        record q {
          pattern_subscriptions =
              q.pattern_subscriptions
              ++ (record { subscriber_id = id; pattern = test; pattern_str = pattern } ∷ []);
        },
      )
    ]

-- `retain`, with the subscriptions that `test` accepts left out
unfoldable pub discard :
    (PatternSubscription → Bool) → List PatternSubscription → List PatternSubscription
discard test [] = []
discard test (x ∷ xs) = let rest = discard test xs in if test x then rest else x ∷ rest

unfoldable pub punsubscribe : PubSubSystem → ℕ → List ℕ → Bool × PubSubSystem
punsubscribe p id pattern =
    let left =
      discard (λ x. x.subscriber_id == id && bytes_equal x.pattern_str pattern)
        p.pattern_subscriptions in
    (ltb (length left) (length p.pattern_subscriptions), record p { pattern_subscriptions = left })

-- the deliveries of `Channel::publish` to the members
unfoldable pub deliver_members : List ℕ → Message → List Subscriber → List Subscriber
deliver_members [] m ss = ss
deliver_members (id ∷ ids) m ss = deliver_members ids m (deliver_to id m ss)

-- The deliveries to the pattern subscriptions, with their count.
unfoldable pub deliver_patterns :
    List PatternSubscription → Message → List Subscriber → ℕ × List Subscriber
deliver_patterns [] m ss = (0, ss)
deliver_patterns (x ∷ xs) m ss =
    let skipped = deliver_patterns xs m ss in
    let (n, delivered) = deliver_patterns xs m (deliver_to x.subscriber_id m ss) in
    if x.pattern m.channel
    then elim (find_subscriber x.subscriber_id ss) [ none ↦ skipped | some s ↦ (suc n, delivered) ]
    else skipped

-- `Channel::publish` on the channel of that name, if there is one, with the count of deliveries
unfoldable pub publish_channel : PubSubSystem → ℕ → List ℕ → List ℕ → ℕ × PubSubSystem
publish_channel p now name payload = elim (find_channel name p.channels) [
  | none ↦ (0, p)
  | some c ↦ (
    length c.members,
    record p {
      channels =
          at_channel (λ x. record x { message_count = add64 x.message_count 1 }) name p.channels;
      subscribers =
          deliver_members c.members
            (record { channel = name; payload = payload; timestamp = now; id = p.message_counter })
            p.subscribers;
      message_counter = add64 p.message_counter 1;
    },
  )
]

unfoldable pub publish : PubSubSystem → ℕ → List ℕ → List ℕ → Result ℕ × PubSubSystem
publish p now name payload =
    if ltb p.max_message_size (length payload)
    then (err message_too_large, p)
    else let (n, q) = publish_channel p now name payload in
      let m : Message = record {
        channel = name;
        payload = payload;
        timestamp = now;
        id = q.message_counter;
      } in
      let (k, ss) = deliver_patterns q.pattern_subscriptions m q.subscribers in
      (
        ok (n + k),
        record q {
          subscribers = ss;
          message_counter = add64 q.message_counter 1;
          total_messages_published = add64 q.total_messages_published 1;
          total_messages_delivered = add64 q.total_messages_delivered (n + k);
        },
      )

unfoldable pub remove_everywhere : ℕ → List Channel → List Channel
remove_everywhere id [] = []
remove_everywhere id (c ∷ cs) = (remove_subscriber c id).1 ∷ remove_everywhere id cs

unfoldable pub drop_subscriber : ℕ → List Subscriber → List Subscriber
drop_subscriber id [] = []
drop_subscriber id (s ∷ ss) =
    let rest = drop_subscriber id ss in if s.id == id then rest else s ∷ rest

-- `PubSubSystem::remove_subscriber`
unfoldable pub remove_completely : PubSubSystem → ℕ → PubSubSystem
remove_completely p id = record p {
  channels = remove_everywhere id p.channels;
  pattern_subscriptions = discard (λ x. x.subscriber_id == id) p.pattern_subscriptions;
  subscribers = drop_subscriber id p.subscribers;
}
