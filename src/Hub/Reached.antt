-- ===== src/Hub/Reached.antt =====
-- Every event keeps the hub consistent, and the loop does not panic.
use Prim.Native.String.{String}
use text.Mathlib.Text.{◌==◌ as str_eq}
use multi_trade_platform.Base.{
  subst, ℕ, ◌≡◌, ◌≢◌, refl, sym, arith, true, false, not, ◌&&◌, List, [], ◌∷◌, ◌==◌, Bool-cases,
  inl, inr,
}
use multi_trade_platform.Hub.Topics.{
  Index, members, subscribed, is_set, remove_member, members-remove_member,
  subscribed-remove_member, is_set-remove_client,
}
use multi_trade_platform.Hub.Run.{
  message_read, connection_ended, unregistered, broadcast_received, written, start, next, Hub,
  Outcome, running, deadlocked, panicked, has, set_client, subscribe, unsubscribe, remove_members,
  unsubscribe_all, close_send, dequeue, unregister, read_message, leave, write, handle, Event,
  Reach, new_hub, broadcast,
}
use multi_trade_platform.Hub.Broadcast.{AllOpen, Delivered, deliver_all-Delivered}
use multi_trade_platform.Hub.Invariant.{
  IsConsistent, subscribe-IsConsistent, unsubscribe-IsConsistent, leave-IsConsistent,
  write-IsConsistent,
}

pub subscribed-remove_members :
    (c d : ℕ) (s : String) (ts : List String) (m : Index)
    → subscribed d s (remove_members c ts m) ≡ (not (d == c && has s ts) && subscribed d s m)
unfolding remove_members
subscribed-remove_members c d s [] m = ground arith
subscribed-remove_members c d s (t ∷ ts) m = ground (
  arith,
  subscribed-remove_members c d s ts (remove_member c t m),
  subscribed-remove_member c d t s m,
)

is_set-remove_members :
    (c : ℕ) (s : String) (ts : List String) (m : Index)
    → is_set (members s m) ≡ true
    → is_set (members s (remove_members c ts m)) ≡ true
unfolding remove_members
is_set-remove_members c s [] m h = h
is_set-remove_members c s (t ∷ ts) m h = is_set-remove_members c s ts (remove_member c t m) (
    let i = is_set-remove_client c (members s m) h in
    let e = members-remove_member c t s m in ground arith)

-- What the head of the queue leaves behind.
abbrev pub unregistered_hub : ℕ → List ℕ → Hub → Hub
unregistered_hub c cs h = record h {
  unregister_queue = cs;
  subscriptions = remove_members c (h.client c).topics h.subscriptions;
  client = set_client c (record (h.client c) { topics = []; closed = true }) h.client;
}

pub dequeue_lem :
    (c : ℕ) (cs : List ℕ) (h : Hub)
    → h.read_locked ≡ false
    → (h.client c).closed ≡ false
    → dequeue (c ∷ cs) h ≡ running (unregistered_hub c cs h)
unfolding dequeue unsubscribe_all close_send
dequeue_lem c cs h u shut = ground arith

unregistered_hub-IsConsistent :
    (c : ℕ) (cs : List ℕ) (h : Hub)
    → h.unregister_queue ≡ c ∷ cs
    → IsConsistent h
    → IsConsistent (unregistered_hub c cs h)
unregistered_hub-IsConsistent c cs h q good =
    let first = good.queued c in
    let once = good.queue_IsSet in
    record {
      unlocked = good.unlocked;
      indexed = λ d s.
          let i = good.indexed d s in
          let after = subscribed-remove_members c d s (h.client c).topics h.subscriptions in
          ground arith;
      members_IsSet =
          λ s. is_set-remove_members c s (h.client c).topics h.subscriptions (good.members_IsSet s);
      queue_IsSet = ground arith;
      queued = λ d mem. let i = good.queued d in ground arith;
      closed = λ d shut. let i = good.closed d in ground arith;
    }

Delivered-IsConsistent :
    (cs : List ℕ) (message : String) (h k h' : Hub)
    → IsConsistent h
    → k ≡ record h { read_locked = true }
    → Delivered cs message k h'
    → IsConsistent (record h' { read_locked = false })
Delivered-IsConsistent cs message h k h' good e sent =
    let subs = sent.subscriptions in
    let queue = sent.unregister_queue in
    record {
      unlocked = refl;
      indexed = λ d s. let i = good.indexed d s in let r = sent.client d in ground arith;
      members_IsSet = λ s. let i = good.members_IsSet s in ground arith;
      queue_IsSet = let i = good.queue_IsSet in ground arith;
      queued = λ d mem. let i = good.queued d in let r = sent.client d in ground arith;
      closed = λ d shut. let i = good.closed d in let r = sent.client d in ground arith;
    }

new_hub-IsConsistent : IsConsistent new_hub
unfolding members
new_hub-IsConsistent = record {
  unlocked = refl;
  indexed = λ c t. refl;
  members_IsSet = λ t. refl;
  queue_IsSet = refl;
  queued = λ c q. cc;
  closed = λ c q. cc;
}

-- The loop goes on in a consistent hub, or it waits for ever.
abbrev pub Safe : Outcome → Type 0
Safe (running h) = IsConsistent h
Safe deadlocked = Unit {0}
Safe panicked = ⊥

pub subscribed-AllOpen :
    (t : String) (h : Hub) → IsConsistent h → AllOpen (members t h.subscriptions) h
subscribed-AllOpen t h good d mem =
    let i = good.indexed d t in
    let shut = good.closed d in
    elim (Bool-cases (h.client d).closed) [
      | inl y ↦ let (r, none_left) = shut y in absurd (ground arith)
      | inr n ↦ n
    ]

Safe-running : (o : Outcome) → o ≢ panicked → ((h : Hub) → o ≡ running h → IsConsistent h) → Safe o
Safe-running (running h) ne keeps = keeps h refl
Safe-running deadlocked ne keeps = tt
Safe-running panicked ne keeps = ne refl

Safe-cases : (o : Outcome) → Safe o → (o ≢ panicked) × ((h : Hub) → o ≡ running h → IsConsistent h)
Safe-cases (running h) good = (λ e. cc, λ k e. subst IsConsistent (ground arith) good)
Safe-cases deadlocked good = (λ e. cc, λ k e. absurd (ground arith))
Safe-cases panicked good = absurd good

dequeue-Safe :
    (cs : List ℕ) (h : Hub) → h.unregister_queue ≡ cs → IsConsistent h → Safe (dequeue cs h)
unfolding dequeue
dequeue-Safe [] h e good = good
dequeue-Safe (c ∷ cs) h e good =
    let waiting = good.queued c (ground arith) in
    subst Safe (sym (dequeue_lem c cs h good.unlocked waiting.1))
      (unregistered_hub-IsConsistent c cs h e good)

broadcast-Safe : (t message : String) (h : Hub) → IsConsistent h → Safe (broadcast t message h)
unfolding broadcast
broadcast-Safe t message h good =
    let locked : Hub = record h { read_locked = true } in
    let cs = members t h.subscriptions in
    elim (deliver_all-Delivered cs message locked refl (good.members_IsSet t)
      (subscribed-AllOpen t h good)) [
        | inl (h', e, sent) ↦ rw e (Delivered-IsConsistent cs message h locked h' good refl sent)
        | inr e ↦ rw e tt
      ]

subscribe-ne-panicked : (c : ℕ) (t : String) (h : Hub) → subscribe c t h ≢ panicked
unfolding subscribe
subscribe-ne-panicked c t h = ground arith

unsubscribe-ne-panicked : (c : ℕ) (t : String) (h : Hub) → unsubscribe c t h ≢ panicked
unfolding unsubscribe
unsubscribe-ne-panicked c t h = ground arith

leave-ne-panicked : (c : ℕ) (h : Hub) → leave c h ≢ panicked
unfolding leave
leave-ne-panicked c h = ground arith

read_message-Safe :
    (c : ℕ) (action t : String) (h : Hub)
    → (h.client c).reading ≡ true
    → IsConsistent h
    → Safe (read_message c action t h)
unfolding read_message
read_message-Safe c action t h reading good = elim (Bool-cases (str_eq action "subscribe")) [
  | inl s ↦ rw s (
      Safe-running (subscribe c t h) (subscribe-ne-panicked c t h)
        (λ h'. subscribe-IsConsistent c t h h' reading good))
  | inr n ↦ elim (Bool-cases (str_eq action "unsubscribe")) [
    | inl u ↦
        rw (n, u)
          (Safe-running (unsubscribe c t h) (unsubscribe-ne-panicked c t h)
            (λ h'. unsubscribe-IsConsistent c t h h' reading good))
    | inr m ↦ rw (n, m) good
  ]
]

handle-Safe : (e : Event) (h : Hub) → IsConsistent h → Safe (handle e h)
unfolding handle unregister
handle-Safe (message_read c action t) h good = elim (Bool-cases (h.client c).reading) [
  | inl r ↦ rw r (read_message-Safe c action t h r good)
  | inr n ↦ rw n good
]
handle-Safe (connection_ended c) h good = elim (Bool-cases (h.client c).reading) [
  | inl r ↦
      rw r
        (Safe-running (leave c h) (leave-ne-panicked c h) (λ h'. leave-IsConsistent c h h' r good))
  | inr n ↦ rw n good
]
handle-Safe unregistered h good = dequeue-Safe h.unregister_queue h refl good
handle-Safe (broadcast_received t message) h good = broadcast-Safe t message h good
handle-Safe (written c) h good = unfold write in write-IsConsistent c h _ good refl

-- In every state that the hub comes to, its map and the clients' own sets of topics agree, no client
-- is listed twice under a topic or in the queue, and a closed client has no topics left and reads no
-- messages.
pub Reach-IsConsistent : (h : Hub) → Reach h → IsConsistent h
Reach-IsConsistent h start = new_hub-IsConsistent
Reach-IsConsistent h' (next {h} r e step) =
    (Safe-cases (handle e h) (handle-Safe e h (Reach-IsConsistent h r))).1 h' step

-- Whatever happens next, the loop neither sends on a closed channel nor closes a channel twice.
pub handle-ne-panicked : (h : Hub) (e : Event) → Reach h → handle e h ≢ panicked
handle-ne-panicked h e r = (Safe-cases (handle e h) (handle-Safe e h (Reach-IsConsistent h r))).0
