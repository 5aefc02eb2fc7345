-- ===== src/Hub/Refinement.antt =====
-- What the hub promises its clients, without its map, its channels and its locks: who wants which
-- topic, who is still read and who waits to be taken out. The hub implements it.
use Prim.Native.String.{String}
use text.Mathlib.Text.{◌==◌ as str_eq}
use multi_trade_platform.Base.{
  ℕ, ◌≡◌, refl, sym, ◌∙◌, ap, arith, Bool, true, false, not, ◌&&◌, ◌||◌, List, [], ◌∷◌, ◌++◌, ◌==◌,
  ltb, if◌then◌else◌, length, Bool-cases, inl, inr,
}
use multi_trade_platform.Hub.Topics.{
  members, subscribed, subscribed-add_member, subscribed-remove_member,
}
use multi_trade_platform.Hub.Run.{
  Hub, Event, message_read, connection_ended, unregistered, broadcast_received, written, running,
  handle, subscribe, unsubscribe, read_message, leave, write, broadcast, dequeue, unregister,
  queue_capacity, Reach, start, next,
}
use multi_trade_platform.Hub.Broadcast.{deliver_all-Delivered}
use multi_trade_platform.Hub.Invariant.{IsConsistent}
use multi_trade_platform.Hub.Reached.{
  Reach-IsConsistent, subscribed-AllOpen, subscribed-remove_members, dequeue_lem,
}

pub record Interest : Type 0 where
  pub wants : ℕ → String → Bool
  pub listening : ℕ → Bool
  pub leaving : List ℕ

abbrev pub no_interest : Interest
no_interest = record { wants = λ c t. false; listening = λ c. true; leaving = [] }

abbrev forget : List ℕ → Interest → Interest
forget [] s = s
forget (c ∷ cs) s = record s { wants = λ d u. not (d == c) && s.wants d u; leaving = cs }

abbrev hear : ℕ → String → String → Interest → Interest
hear c action t s =
    if str_eq action "subscribe"
    then record s { wants = λ d u. str_eq t u && d == c || s.wants d u }
    else if str_eq action "unsubscribe"
    then record s { wants = λ d u. not (str_eq t u && d == c) && s.wants d u }
    else s

abbrev depart : ℕ → Interest → Interest
depart c s =
    if ltb (length s.leaving) queue_capacity
    then record s {
      listening = λ d. if d == c then false else s.listening d;
      leaving = s.leaving ++ c ∷ [];
    }
    else s

abbrev pub respond : Event → Interest → Interest
respond (message_read c action t) s = if s.listening c then hear c action t s else s
respond (connection_ended c) s = if s.listening c then depart c s else s
respond unregistered s = forget s.leaving s
respond (broadcast_received t message) s = s
respond (written c) s = s

abbrev pub interest : Hub → Interest
interest h = record {
  wants = λ c t. subscribed c t h.subscriptions;
  listening = λ c. (h.client c).reading;
  leaving = h.unregister_queue;
}

interest_eq :
    (a b : Interest)
    → ((c : ℕ) (t : String) → a.wants c t ≡ b.wants c t)
    → ((c : ℕ) → a.listening c ≡ b.listening c)
    → a.leaving ≡ b.leaving
    → a ≡ b
interest_eq a b p q r =
    λ i. record { wants = λ c t. p c t i; listening = λ c. q c i; leaving = r i }

subscribe-interest :
    (c : ℕ) (t : String) (h h' : Hub)
    → h.read_locked ≡ false
    → subscribe c t h ≡ running h'
    → interest h' ≡ record (interest h) {
      wants = λ d u. str_eq t u && d == c || subscribed d u h.subscriptions;
    }
unfolding subscribe
subscribe-interest c t h h' unlocked e =
    interest_eq _ _ (λ d s. let sub = subscribed-add_member c d t s h.subscriptions in ground arith)
      (λ d. ground arith) (ground arith)

unsubscribe-interest :
    (c : ℕ) (t : String) (h h' : Hub)
    → h.read_locked ≡ false
    → unsubscribe c t h ≡ running h'
    → interest h' ≡ record (interest h) {
      wants = λ d u. not (str_eq t u && d == c) && subscribed d u h.subscriptions;
    }
unfolding unsubscribe
unsubscribe-interest c t h h' unlocked e =
    interest_eq _ _
      (λ d s. let sub = subscribed-remove_member c d t s h.subscriptions in ground arith)
      (λ d. ground arith) (ground arith)

leave-interest : (c : ℕ) (h h' : Hub) → leave c h ≡ running h' → interest h' ≡ depart c (interest h)
unfolding leave
leave-interest c h h' e = elim (Bool-cases (ltb (length h.unregister_queue) queue_capacity)) [
  | inl room ↦ rw room (interest_eq _ _ (λ d s. ground arith) (λ d. ground arith) (ground arith))
  | inr full ↦ rw full (interest_eq _ _ (λ d s. ground arith) (λ d. ground arith) (ground arith))
]

read_message-interest :
    (c : ℕ) (action t : String) (h h' : Hub)
    → h.read_locked ≡ false
    → read_message c action t h ≡ running h'
    → interest h' ≡ hear c action t (interest h)
unfolding read_message
read_message-interest c action t h h' unlocked e = elim (Bool-cases (str_eq action "subscribe")) [
  | inl s ↦ rw s (subscribe-interest c t h h' unlocked (ground arith))
  | inr n ↦ elim (Bool-cases (str_eq action "unsubscribe")) [
    | inl u ↦ rw (n, u) (unsubscribe-interest c t h h' unlocked (ground arith))
    | inr m ↦ rw (n, m) (interest_eq _ _ (λ d s. ground arith) (λ d. ground arith) (ground arith))
  ]
]

dequeue-interest :
    (cs : List ℕ) (h h' : Hub)
    → h.unregister_queue ≡ cs
    → IsConsistent h
    → dequeue cs h ≡ running h'
    → interest h' ≡ forget cs (interest h)
unfolding dequeue
dequeue-interest [] h h' q good e =
    interest_eq _ _ (λ d s. ground arith) (λ d. ground arith) (ground arith)
dequeue-interest (c ∷ cs) h h' q good e =
    let waiting = good.queued c (ground arith) in
    let done = dequeue_lem c cs h good.unlocked waiting.1 in
    interest_eq _ _
      (λ d s.
        let gone = subscribed-remove_members c d s (h.client c).topics h.subscriptions in
        let i = good.indexed d s in ground arith)
      (λ d. ground arith) (ground arith)

broadcast-interest :
    (t message : String) (h h' : Hub)
    → IsConsistent h
    → broadcast t message h ≡ running h'
    → interest h' ≡ interest h
unfolding broadcast
broadcast-interest t message h h' good e =
    let cs = members t h.subscriptions in
    elim (deliver_all-Delivered cs message (record h { read_locked = true }) refl
      (good.members_IsSet t) (subscribed-AllOpen t h good)) [
        | inl (k, done, sent) ↦
            let subs = sent.subscriptions in
            let queue = sent.unregister_queue in
            interest_eq _ _ (λ d s. ground arith) (λ d. let r = sent.client d in ground arith)
              (ground arith)
        | inr stuck ↦ absurd (ground arith)
      ]

write-interest : (c : ℕ) (h h' : Hub) → write c h ≡ running h' → interest h' ≡ interest h
unfolding write
write-interest c h h' e = interest_eq _ _ (λ d s. ground arith) (λ d. ground arith) (ground arith)

handle-interest :
    (e : Event) (h h' : Hub)
    → IsConsistent h
    → handle e h ≡ running h'
    → interest h' ≡ respond e (interest h)
unfolding handle unregister
handle-interest (message_read c action t) h h' good e = elim (Bool-cases (h.client c).reading) [
  | inl r ↦ rw r (read_message-interest c action t h h' good.unlocked (ground arith))
  | inr n ↦ rw n (interest_eq _ _ (λ d s. ground arith) (λ d. ground arith) (ground arith))
]
handle-interest (connection_ended c) h h' good e = elim (Bool-cases (h.client c).reading) [
  | inl r ↦ rw r (leave-interest c h h' (ground arith))
  | inr n ↦ rw n (interest_eq _ _ (λ d s. ground arith) (λ d. ground arith) (ground arith))
]
handle-interest unregistered h h' good e = dequeue-interest h.unregister_queue h h' refl good e
handle-interest (broadcast_received t message) h h' good e =
    broadcast-interest t message h h' good e
handle-interest (written c) h h' good e = write-interest c h h' e

-- The events that have led to a state, in order.
abbrev pub respond_all : List Event → Interest → Interest
respond_all [] s = s
respond_all (e ∷ es) s = respond_all es (respond e s)

abbrev pub history : {h : Hub} → Reach h → List Event
history start = []
history (next r e step) = history r ++ e ∷ []

respond_all-append :
    (es : List Event) (e : Event) (s : Interest)
    → respond_all (es ++ e ∷ []) s ≡ respond e (respond_all es s)
respond_all-append [] e s = refl
respond_all-append (x ∷ es) e s = respond_all-append es e (respond x s)

-- In every state that the hub comes to, who is subscribed to what, which clients are still read and
-- which wait to be taken out are what the events so far give when nothing else is kept: a client
-- wants a topic that it has subscribed to, until it unsubscribes or is taken out.
pub Reach-interest : (h : Hub) (r : Reach h) → interest h ≡ respond_all (history r) no_interest
unfolding members
Reach-interest h start = refl
Reach-interest h' (next {h} r e step) =
    handle-interest e h h' (Reach-IsConsistent h r) step
    ∙ ap (respond e) (Reach-interest h r)
    ∙ sym (respond_all-append (history r) e no_interest)
