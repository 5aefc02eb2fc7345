-- ===== src/Tests/Hub.antt =====
-- A hub with one subscriber, and the same with its channel filled up.
use Prim.Native.String.{String}
use multi_trade_platform.Base.{
  ℕ, zero, suc, ◌≡◌, ◌≢◌, ◌≤◌, ◌<◌, refl, arith, true, false, [], ◌∷◌, ◌++◌, if◌then◌else◌, length,
  length-append,
}
use multi_trade_platform.Hub.Topics.{members, set_members, add_member}
use multi_trade_platform.Hub.Run.{
  Hub, running, deadlocked, panicked, has, subscribe, read_message, handle, message_read,
  broadcast_received, connection_ended, broadcast, deliver_all, Reach, start, next, new_hub,
  set_client, send_capacity,
}
use multi_trade_platform.Hub.Broadcast.{push_to, deliver_open}
use multi_trade_platform.Hub.Invariant.{IsConsistent}
use multi_trade_platform.Hub.Reached.{Reach-IsConsistent, handle-ne-panicked}
use multi_trade_platform.Hub.Refinement.{interest, respond_all, no_interest, Reach-interest}
use multi_trade_platform.Hub.Delivery.{broadcast-delivers, broadcast-deadlocks}

abbrev topic : String
topic = "asset:5"

abbrev one_subscriber : Hub
one_subscriber = record new_hub {
  subscriptions = (topic, 1 ∷ []) ∷ [];
  client =
      set_client 1 (record { topics = topic ∷ []; pending = []; closed = false; reading = true })
        new_hub.client;
}

one_subscriber-Reach : Reach one_subscriber
unfolding handle read_message subscribe add_member members set_members
one_subscriber-Reach = next start (message_read 1 "subscribe" topic) refl

-- The same after so many messages that are not written.
waiting : ℕ → Hub
waiting zero = one_subscriber
waiting (suc n) = push_to 1 "tick" (waiting n)

waiting_unlocked : (n : ℕ) → (waiting n).read_locked ≡ false
unfolding waiting
waiting_unlocked zero = refl
waiting_unlocked (suc n) = waiting_unlocked n

waiting_subscriptions : (n : ℕ) → (waiting n).subscriptions ≡ one_subscriber.subscriptions
unfolding waiting
waiting_subscriptions zero = refl
waiting_subscriptions (suc n) = waiting_subscriptions n

waiting_open : (n : ℕ) → ((waiting n).client 1).closed ≡ false
unfolding waiting
waiting_open zero = refl
waiting_open (suc n) = waiting_open n

waiting_topics : (n : ℕ) → ((waiting n).client 1).topics ≡ topic ∷ []
unfolding waiting
waiting_topics zero = refl
waiting_topics (suc n) = waiting_topics n

length-waiting : (n : ℕ) → length ((waiting n).client 1).pending ≡ n
unfolding waiting
length-waiting zero = refl
length-waiting (suc n) =
    omega (arith, length-waiting n, length-append ((waiting n).client 1).pending ("tick" ∷ []))

waiting-handle :
    (n : ℕ)
    → n < send_capacity
    → handle (broadcast_received topic "tick") (waiting n) ≡ running (waiting (suc n))
unfolding waiting handle broadcast deliver_all members
waiting-handle n room =
    let l = length-waiting n in
    let sent =
      deliver_open 1 "tick" (record (waiting n) { read_locked = true }) (waiting_open n)
        (omega arith) in
    let u = waiting_unlocked n in let s = waiting_subscriptions n in ground arith

waiting-Reach : (n : ℕ) → n ≤ send_capacity → Reach (waiting n)
unfolding waiting
waiting-Reach zero room = one_subscriber-Reach
waiting-Reach (suc n) room =
    next (waiting-Reach n (omega arith)) (broadcast_received topic "tick")
      (waiting-handle n (omega arith))

-- A client that subscribes, leaves and is unregistered.
Reach-IsConsistent_example : IsConsistent one_subscriber
Reach-IsConsistent_example = Reach-IsConsistent one_subscriber one_subscriber-Reach

handle-ne-panicked_example : handle (connection_ended 1) one_subscriber ≢ panicked
handle-ne-panicked_example =
    handle-ne-panicked one_subscriber (connection_ended 1) one_subscriber-Reach

broadcast-delivers_example :
    (h : Hub) × (broadcast topic "tick" one_subscriber ≡ running h)
    × ((c : ℕ)
        → (h.client c).pending ≡ (
            if has topic (one_subscriber.client c).topics
            then (one_subscriber.client c).pending ++ "tick" ∷ []
            else (one_subscriber.client c).pending))
broadcast-delivers_example =
    broadcast-delivers topic "tick" one_subscriber one_subscriber-Reach
      (λ c subscribed. ground arith)

broadcast-deadlocks_example : broadcast topic "tick" (waiting send_capacity) ≡ deadlocked
broadcast-deadlocks_example =
    broadcast-deadlocks topic "tick" (waiting send_capacity) 1
      (waiting-Reach send_capacity (omega arith)) (rw (waiting_topics send_capacity) refl)
      (omega (arith, length-waiting send_capacity))

Reach-interest_example :
    interest one_subscriber ≡ respond_all (message_read 1 "subscribe" topic ∷ []) no_interest
unfolding one_subscriber-Reach
Reach-interest_example = Reach-interest one_subscriber one_subscriber-Reach
