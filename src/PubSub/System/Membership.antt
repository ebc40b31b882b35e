-- ===== src/PubSub/System/Membership.antt =====
-- Who is subscribed after the calls of pubsub/mod.rs.
use ved_db_server.Prelude.{
  ℕ, ◌≡◌, refl, ap, ◌≢◌, inl, inr, true, false, ◌||◌, none, some, List, [], ◌∷◌, ◌++◌, arith, ◌==◌,
  Bool-cases, Option-cases, All,
}
use ved_db_server.Kv.Hash.{bytes_equal, bytes_equal_refl}
use ved_db_server.PubSub.Subscriber.{Subscriber}
use ved_db_server.PubSub.System.{
  Channel, PubSubSystem, PatternSubscription, new_channel, has_member, without_member,
  add_subscriber, remove_subscriber, find_channel, at_channel, find_subscriber,
  get_or_create_channel, get_or_create_subscriber, subscribe, discard, remove_everywhere,
  drop_subscriber, remove_completely,
}

has_member-without_member : (id : ℕ) (xs : List ℕ) → has_member id (without_member id xs) ≡ false
unfolding has_member without_member
has_member-without_member id [] = refl
has_member-without_member id (x ∷ xs) = ground (arith, has_member-without_member id xs)

remove_subscriber-gone :
    (c : Channel) (id : ℕ) → has_member id (remove_subscriber c id).1.members ≡ false
unfolding remove_subscriber
remove_subscriber-gone c id = ground (arith, has_member-without_member id c.members)

remove_everywhere-gone :
    (id : ℕ) (cs : List Channel)
    → All (λ c. has_member id c.members ≡ false) (remove_everywhere id cs)
unfolding remove_everywhere
remove_everywhere-gone id [] = tt
remove_everywhere-gone id (c ∷ cs) = (remove_subscriber-gone c id, remove_everywhere-gone id cs)

discard-gone :
    (id : ℕ) (xs : List PatternSubscription)
    → All (λ x. x.subscriber_id ≢ id) (discard (λ x. x.subscriber_id == id) xs)
unfolding discard
discard-gone id [] = tt
discard-gone id (x ∷ xs) = elim (Bool-cases (x.subscriber_id == id)) [
  | inl same ↦ rw same (discard-gone id xs)
  | inr other ↦ rw other ((λ e. absurd (ground arith)), discard-gone id xs)
]

find_subscriber-drop_subscriber :
    (id : ℕ) (ss : List Subscriber) → find_subscriber id (drop_subscriber id ss) ≡ none
unfolding find_subscriber drop_subscriber
find_subscriber-drop_subscriber id [] = refl
find_subscriber-drop_subscriber id (s ∷ ss) = ground (arith, find_subscriber-drop_subscriber id ss)

-- A subscriber that was removed is in no channel, has no pattern subscription, and is not found.
pub remove_completely-gone :
    (p : PubSubSystem) (id : ℕ)
    → let q = remove_completely p id in
      All (λ c. has_member id c.members ≡ false) q.channels
      × All (λ x. x.subscriber_id ≢ id) q.pattern_subscriptions
      × (find_subscriber id q.subscribers ≡ none)
unfolding remove_completely
remove_completely-gone p id = (
  remove_everywhere-gone id p.channels,
  discard-gone id p.pattern_subscriptions,
  find_subscriber-drop_subscriber id p.subscribers,
)

has_member-append :
    (id : ℕ) (xs ys : List ℕ) → has_member id (xs ++ ys) ≡ (has_member id xs || has_member id ys)
unfolding has_member
has_member-append id [] ys = refl
has_member-append id (x ∷ xs) ys = ground (arith, has_member-append id xs ys)

add_subscriber-member : (c : Channel) (id : ℕ) → has_member id (add_subscriber c id).members ≡ true
unfolding add_subscriber has_member
add_subscriber-member c id = ground (arith, has_member-append id c.members (id ∷ []))

add_subscriber-name : (c : Channel) (id : ℕ) → (add_subscriber c id).name ≡ c.name
unfolding add_subscriber
add_subscriber-name c id = ground arith

find_channel-at_channel :
    (id : ℕ) (name : List ℕ) (cs : List Channel) (c : Channel)
    → find_channel name cs ≡ some c
    → find_channel name (at_channel (λ x. add_subscriber x id) name cs) ≡ some (add_subscriber c id)
unfolding find_channel at_channel add_subscriber
find_channel-at_channel id name [] c e = absurd (ground arith)
find_channel-at_channel id name (x ∷ cs) c e = elim (Bool-cases (bytes_equal x.name name)) [
  | inl same ↦
      let same_channel : x ≡ c = ground arith in
      rw (same, add_subscriber-name x id, same) (ap (λ y. some (add_subscriber y id)) same_channel)
  | inr other ↦ rw (other, other) (find_channel-at_channel id name cs c (ground arith))
]

find_channel-append :
    (name : List ℕ) (cs : List Channel)
    → find_channel name cs ≡ none
    → find_channel name (cs ++ (new_channel name ∷ [])) ≡ some (new_channel name)
unfolding find_channel
find_channel-append name [] e = ground (arith, bytes_equal_refl name)
find_channel-append name (c ∷ cs) e = elim (Bool-cases (bytes_equal c.name name)) [
  | inl same ↦ absurd (ground arith)
  | inr other ↦ rw other (find_channel-append name cs (ground arith))
]

find_channel-get_or_create_channel :
    (p : PubSubSystem) (name : List ℕ)
    → (c : Channel) × (find_channel name (get_or_create_channel p name).channels ≡ some c)
unfolding get_or_create_channel
find_channel-get_or_create_channel p name = elim (Option-cases (find_channel name p.channels)) [
  | inl missing ↦ (
    new_channel name,
    rw (get_or_create_channel, missing) (find_channel-append name p.channels missing),
  )
  | inr (c, found) ↦ (c, rw (get_or_create_channel, found) found)
]

-- After a subscription the channel exists and the subscriber is one of its members.
subscribe-member :
    (p : PubSubSystem) (id : ℕ) (name : List ℕ)
    → (c : Channel) × (find_channel name (subscribe p id name).channels ≡ some c)
      × (has_member id c.members ≡ true)
unfolding subscribe
subscribe-member p id name =
    let q = get_or_create_subscriber p id in
    let (c, found) = find_channel-get_or_create_channel q name in
    (
      add_subscriber c id,
      find_channel-at_channel id name (get_or_create_channel q name).channels c found,
      add_subscriber-member c id,
    )
