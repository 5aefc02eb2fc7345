-- ===== src/Hub/Delivery.antt =====
-- Who receives a broadcast, and when it does not end.
use Prim.Native.String.{String}
use multi_trade_platform.Base.{
  ◌<◌, ℕ, ◌≡◌, ◌≤◌, refl, arith, true, false, [], ◌∷◌, ◌++◌, if◌then◌else◌, length,
}
use multi_trade_platform.Hub.Topics.{members, subscribed}
use multi_trade_platform.Hub.Run.{Hub, running, deadlocked, has, Reach, broadcast, send_capacity}
use multi_trade_platform.Hub.Broadcast.{deliver_all_full, deliver_all_room}
use multi_trade_platform.Hub.Reached.{Reach-IsConsistent, subscribed-AllOpen}

-- If every client that is subscribed to the topic has room in its channel, the broadcast ends: each
-- of them has the message once, behind what it had, and the other clients have what they had.
pub broadcast-delivers :
    (t message : String) (h : Hub)
    → Reach h
    → ((c : ℕ)
        → subscribed c t h.subscriptions ≡ true
        → length (h.client c).pending < send_capacity)
    → (h' : Hub) × (broadcast t message h ≡ running h')
      × ((c : ℕ)
          → (h'.client c).pending ≡ (
              if has t (h.client c).topics
              then (h.client c).pending ++ message ∷ []
              else (h.client c).pending))
unfolding broadcast
broadcast-delivers t message h r room =
    let good = Reach-IsConsistent h r in
    let (h', e, sent) =
      deliver_all_room (members t h.subscriptions) message (record h { read_locked = true })
        (good.members_IsSet t) (subscribed-AllOpen t h good) room in
    (
      record h' { read_locked = false },
      rw e refl,
      λ c. let i = good.indexed c t in let s = sent.client c in ground arith,
    )

-- If one client that is subscribed to the topic has a full channel, the broadcast never ends: the
-- loop waits for a lock that it holds itself.
pub broadcast-deadlocks :
    (t message : String) (h : Hub) (c : ℕ)
    → Reach h
    → has t (h.client c).topics ≡ true
    → send_capacity ≤ length (h.client c).pending
    → broadcast t message h ≡ deadlocked
unfolding broadcast
broadcast-deadlocks t message h c r mem full =
    let good = Reach-IsConsistent h r in
    let i = good.indexed c t in
    rw
      (deliver_all_full (members t h.subscriptions) message (record h { read_locked = true }) c refl
        (good.members_IsSet t) (subscribed-AllOpen t h good) (ground arith) full)
      refl
