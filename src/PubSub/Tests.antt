-- ===== src/PubSub/Tests.antt =====
-- Runs of publish and subscribe at concrete inputs.
use ved_db_server.Prelude.{ℕ, ◌≡◌, refl, ◌≢◌, false, none, List, [], ◌∷◌, arith, All}
use ved_db_server.PubSub.Subscriber
use ved_db_server.PubSub.System.{
  new_system, PubSubSystem, has_member, find_subscriber, subscribe, remove_completely,
}
use ved_db_server.PubSub.System.Membership.{remove_completely-gone}
use ved_db_server.PubSub.Subscriber.{Message, Subscriber}
use ved_db_server.PubSub.Subscriber.Queue.{deliver_all, deliver_all-latest}

abbrev message : ℕ → Message
message n = record { channel = 110 ∷ []; payload = n ∷ []; timestamp = 5; id = n }

-- Of three messages, a buffer of two keeps the last two.
deliver_all-latest_example :
    let t = deliver_all (Subscriber.new 7 2 none) (message 1 ∷ message 2 ∷ message 3 ∷ []) in
    (t.queue ≡ message 2 ∷ message 3 ∷ []) × (t.messages_received ≡ 3) × (t.messages_dropped ≡ 1)
deliver_all-latest_example =
    deliver_all-latest (Subscriber.new 7 2 none) (message 1 ∷ message 2 ∷ message 3 ∷ []) refl
      (omega arith) (omega arith) (omega arith) (omega arith)

abbrev news : List ℕ
news = 110 ∷ 101 ∷ 119 ∷ 115 ∷ []

abbrev system : PubSubSystem
system = subscribe (new_system 100 10) 7 news

remove_completely-gone_example :
    All (λ c. has_member 7 c.members ≡ false) (remove_completely system 7).channels
    × All (λ x. x.subscriber_id ≢ 7) (remove_completely system 7).pattern_subscriptions
    × (find_subscriber 7 (remove_completely system 7).subscribers ≡ none)
remove_completely-gone_example = remove_completely-gone system 7
