-- ===== src/Hub/Run.antt =====
-- hub.go, and the ReadPump and WritePump of client.go: the state of the hub and one function for each
-- thing that happens to it. A lock is held over a whole event, so an event is one step. A WritePump
-- that reads its own channel during a broadcast does what it would do before or after it.
use Prim.Native.String.{String}
use text.Mathlib.Text.{◌==◌ as str_eq}
use multi_trade_platform.Base.{
  ℕ, ◌≡◌, Bool, true, false, ◌||◌, List, [], ◌∷◌, ◌++◌, ◌==◌, ltb, if◌then◌else◌, length,
}
use multi_trade_platform.Hub.Topics.{Index, members, add_member, remove_member}

-- Client. The flag `closed` is the state of its channel Send, `reading` says that ReadPump runs.
pub record Client : Type 0 where
  pub topics : List String
  pub pending : List String
  pub closed : Bool
  pub reading : Bool

-- Hub, with the queue UnregisterChan. The mutex is `read_locked` while a broadcast goes on.
pub record Hub : Type 0 where
  pub subscriptions : Index
  pub client : ℕ → Client
  pub unregister_queue : List ℕ
  pub read_locked : Bool

-- What becomes of the loop: a send on a closed channel, or closing it again, panics.
pub data Outcome : Type 0 where
  running : Hub → Outcome
  deadlocked : Outcome
  panicked : Outcome

infixl 5 ◌>>=◌
abbrev pub ◌>>=◌ : Outcome → (Hub → Outcome) → Outcome
running h >>= f = f h
deadlocked >>= f = deadlocked
panicked >>= f = panicked

abbrev pub send_capacity : ℕ
send_capacity = 256

abbrev pub queue_capacity : ℕ
queue_capacity = 256

abbrev pub new_client : Client
new_client = record { topics = []; pending = []; closed = false; reading = true }

-- A client that has not connected is one whose ReadPump has read nothing.
abbrev pub new_hub : Hub
new_hub = record {
  subscriptions = [];
  client = λ c. new_client;
  unregister_queue = [];
  read_locked = false;
}

-- A set of topics.
abbrev pub has : String → List String → Bool
has t [] = false
has t (s ∷ ts) = str_eq s t || has t ts

abbrev pub add_topic : String → List String → List String
add_topic t ts = if has t ts then ts else t ∷ ts

abbrev pub delete_topic : String → List String → List String
delete_topic t [] = []
delete_topic t (s ∷ ts) = if str_eq s t then delete_topic t ts else s ∷ delete_topic t ts

abbrev pub set_client : ℕ → Client → (ℕ → Client) → ℕ → Client
set_client c k f d = if d == c then k else f d

-- subMutex.Lock waits for the readers; the only reader is the loop itself.
abbrev pub lock : Hub → Hub → Outcome
lock h h' = if h.read_locked then deadlocked else running h'

unfoldable pub subscribe : ℕ → String → Hub → Outcome
subscribe c t h =
    let k = h.client c in
    lock h (record h {
      subscriptions = add_member c t h.subscriptions;
      client = set_client c (record k { topics = add_topic t k.topics }) h.client;
    })

unfoldable pub unsubscribe : ℕ → String → Hub → Outcome
unsubscribe c t h =
    let k = h.client c in
    lock h (record h {
      subscriptions = remove_member c t h.subscriptions;
      client = set_client c (record k { topics = delete_topic t k.topics }) h.client;
    })

unfoldable pub remove_members : ℕ → List String → Index → Index
remove_members c [] m = m
remove_members c (t ∷ ts) m = remove_members c ts (remove_member c t m)

unfoldable pub unsubscribe_all : ℕ → Hub → Outcome
unsubscribe_all c h =
    let k = h.client c in
    lock h (record h {
      subscriptions = remove_members c k.topics h.subscriptions;
      client = set_client c (record k { topics = [] }) h.client;
    })

-- close(client.Send)
unfoldable pub close_send : ℕ → Hub → Outcome
close_send c h =
    let k = h.client c in
    if k.closed
    then panicked
    else running (record h { client = set_client c (record k { closed = true }) h.client })

-- One turn of the loop over the clients of a topic, the default of its select included.
unfoldable pub deliver : ℕ → String → Hub → Outcome
deliver c message h =
    let k = h.client c in
    if k.closed
    then panicked
    else if ltb (length k.pending) send_capacity
    then running (record h {
      client = set_client c (record k { pending = k.pending ++ message ∷ [] }) h.client;
    })
    else unsubscribe_all c h >>= close_send c

unfoldable pub deliver_all : List ℕ → String → Hub → Outcome
deliver_all [] message h = running h
deliver_all (c ∷ cs) message h = deliver c message h >>= deliver_all cs message

abbrev r_unlock : Hub → Outcome
r_unlock h = running (record h { read_locked = false })

unfoldable pub broadcast : String → String → Hub → Outcome
broadcast topic message h =
    deliver_all (members topic h.subscriptions) message (record h { read_locked = true })
    >>= r_unlock

unfoldable pub dequeue : List ℕ → Hub → Outcome
dequeue [] h = running h
dequeue (c ∷ cs) h = unsubscribe_all c (record h { unregister_queue = cs }) >>= close_send c

unfoldable pub unregister : Hub → Outcome
unregister h = dequeue h.unregister_queue h

-- ReadPump: a message that was read, and the end of the connection.
unfoldable pub read_message : ℕ → String → String → Hub → Outcome
read_message c action topic h =
    if str_eq action "subscribe"
    then subscribe c topic h
    else if str_eq action "unsubscribe"
    then unsubscribe c topic h
    else running h

unfoldable pub leave : ℕ → Hub → Outcome
leave c h =
    let k = h.client c in
    if ltb (length h.unregister_queue) queue_capacity
    then running (record h {
      client = set_client c (record k { reading = false }) h.client;
      unregister_queue = h.unregister_queue ++ c ∷ [];
    })
    else running h

-- WritePump: the first message and the ones queued behind it are written.
unfoldable pub write : ℕ → Hub → Outcome
write c h =
    let k = h.client c in
    running (record h { client = set_client c (record k { pending = [] }) h.client })

pub data Event : Type 0 where
  message_read : ℕ → String → String → Event
  connection_ended : ℕ → Event
  unregistered : Event
  broadcast_received : String → String → Event
  written : ℕ → Event

-- A client whose ReadPump has ended sends no messages and does not leave again.
unfoldable pub handle : Event → Hub → Outcome
handle (message_read c action topic) h =
    if (h.client c).reading then read_message c action topic h else running h
handle (connection_ended c) h = if (h.client c).reading then leave c h else running h
handle unregistered h = unregister h
handle (broadcast_received topic message) h = broadcast topic message h
handle (written c) h = write c h

-- The states that the hub comes to.
pub data Reach : Hub → Type 0 where
  start : Reach new_hub
  next : {h h' : Hub} → Reach h → (e : Event) → handle e h ≡ running h' → Reach h'
