-- ===== src/Hub/Invariant.antt =====
-- The map of the hub and the sets of its clients agree, and a client is closed once.
use Prim.Native.String.{String}
use text.Mathlib.Text.{◌==◌ as str_eq}
use text.Mathlib.TextEquality.{eq_iff}
use multi_trade_platform.Base.{
  ℕ, ◌≡◌, arith, true, false, not, ◌&&◌, ◌||◌, List, [], ◌∷◌, ◌++◌, ◌==◌,
}
use multi_trade_platform.Hub.Topics.{
  contains, members, subscribed, is_set, members-add_member, members-remove_member,
  subscribed-add_member, subscribed-remove_member, is_set-add_client, is_set-remove_client,
}
use multi_trade_platform.Hub.Run.{
  Hub, running, has, add_topic, delete_topic, subscribe, unsubscribe, leave, write,
}

-- The queue holds a client once, after its ReadPump has ended and until its channel is closed.
pub record IsConsistent (h : Hub) : Type 0 where
  pub unlocked : h.read_locked ≡ false
  pub indexed : (c : ℕ) (t : String) → subscribed c t h.subscriptions ≡ has t (h.client c).topics
  pub members_IsSet : (t : String) → is_set (members t h.subscriptions) ≡ true
  pub queue_IsSet : is_set h.unregister_queue ≡ true
  pub queued :
      (c : ℕ)
      → contains c h.unregister_queue ≡ true
      → ((h.client c).reading ≡ false) × ((h.client c).closed ≡ false)
  pub closed :
      (c : ℕ)
      → (h.client c).closed ≡ true
      → ((h.client c).reading ≡ false) × ((h.client c).topics ≡ [])

has-add_topic :
    (s t : String) (ts : List String) → has s (add_topic t ts) ≡ (str_eq t s || has s ts)
has-add_topic s t ts = ground (arith, eq_iff t s)

has-delete_topic :
    (s t : String) (ts : List String) → has s (delete_topic t ts) ≡ (not (str_eq t s) && has s ts)
has-delete_topic s t [] = ground arith
has-delete_topic s t (u ∷ ts) =
    ground (arith, eq_iff u t, eq_iff u s, eq_iff t s, has-delete_topic s t ts)

pub subscribe-IsConsistent :
    (c : ℕ) (t : String) (h h' : Hub)
    → (h.client c).reading ≡ true
    → IsConsistent h
    → subscribe c t h ≡ running h'
    → IsConsistent h'
unfolding subscribe
subscribe-IsConsistent c t h h' reading good e = record {
  unlocked = let u = good.unlocked in ground arith;
  indexed = λ d s.
      let u = good.unlocked in
      let i = good.indexed d s in
      ground (
        arith,
        subscribed-add_member c d t s h.subscriptions,
        has-add_topic s t (h.client c).topics,
      );
  members_IsSet = λ s.
      let u = good.unlocked in
      let i = good.members_IsSet s in
      ground (
        arith,
        members-add_member c t s h.subscriptions,
        is_set-add_client c (members s h.subscriptions),
      );
  queue_IsSet = let u = good.unlocked in let i = good.queue_IsSet in ground arith;
  queued = λ d q. let u = good.unlocked in let i = good.queued d in ground arith;
  closed = λ d q. let u = good.unlocked in let i = good.closed d in ground arith;
}

pub unsubscribe-IsConsistent :
    (c : ℕ) (t : String) (h h' : Hub)
    → (h.client c).reading ≡ true
    → IsConsistent h
    → unsubscribe c t h ≡ running h'
    → IsConsistent h'
unfolding unsubscribe
unsubscribe-IsConsistent c t h h' reading good e = record {
  unlocked = let u = good.unlocked in ground arith;
  indexed = λ d s.
      let u = good.unlocked in
      let i = good.indexed d s in
      ground (
        arith,
        subscribed-remove_member c d t s h.subscriptions,
        has-delete_topic s t (h.client c).topics,
      );
  members_IsSet = λ s.
      let u = good.unlocked in
      let i = good.members_IsSet s in
      ground (
        arith,
        members-remove_member c t s h.subscriptions,
        is_set-remove_client c (members s h.subscriptions),
      );
  queue_IsSet = let u = good.unlocked in let i = good.queue_IsSet in ground arith;
  queued = λ d q. let u = good.unlocked in let i = good.queued d in ground arith;
  closed = λ d q. let u = good.unlocked in let i = good.closed d in ground arith;
}

contains-append : (c d : ℕ) (cs : List ℕ) → contains d (cs ++ c ∷ []) ≡ (contains d cs || c == d)
contains-append c d [] = ground arith
contains-append c d (x ∷ xs) = ground (arith, contains-append c d xs)

is_set-append :
    (c : ℕ) (cs : List ℕ) → contains c cs ≡ false → is_set cs ≡ true → is_set (cs ++ c ∷ []) ≡ true
is_set-append c [] new h = ground arith
is_set-append c (x ∷ xs) new h = ground (arith, is_set-append c xs, contains-append c x xs)

pub leave-IsConsistent :
    (c : ℕ) (h h' : Hub)
    → (h.client c).reading ≡ true
    → IsConsistent h
    → leave c h ≡ running h'
    → IsConsistent h'
unfolding leave
leave-IsConsistent c h h' reading good e =
    let new = good.queued c in
    let shut = good.closed c in
    record {
      unlocked = let u = good.unlocked in ground arith;
      indexed = λ d s. let i = good.indexed d s in ground arith;
      members_IsSet = λ s. let i = good.members_IsSet s in ground arith;
      queue_IsSet = let i = good.queue_IsSet in ground (arith, is_set-append c h.unregister_queue);
      queued =
          λ d q. let i = good.queued d in ground (arith, contains-append c d h.unregister_queue);
      closed = λ d q. let i = good.closed d in ground arith;
    }

pub write-IsConsistent :
    (c : ℕ) (h h' : Hub) → IsConsistent h → write c h ≡ running h' → IsConsistent h'
unfolding write
write-IsConsistent c h h' good e = record {
  unlocked = let u = good.unlocked in ground arith;
  indexed = λ d s. let i = good.indexed d s in ground arith;
  members_IsSet = λ s. let i = good.members_IsSet s in ground arith;
  queue_IsSet = let i = good.queue_IsSet in ground arith;
  queued = λ d q. let i = good.queued d in ground arith;
  closed = λ d q. let i = good.closed d in ground arith;
}
