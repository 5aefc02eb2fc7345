-- ===== src/Hub/Broadcast.antt =====
-- One broadcast, under the lock that the loop holds.
use Prim.Native.String.{String}
use multi_trade_platform.Base.{
  ℕ, ◌≡◌, ◌≤◌, ◌<◌, refl, sym, ◌∙◌, ap, subst, arith, true, false, List, [], ◌∷◌, ◌++◌, ◌==◌,
  if◌then◌else◌, Bool-cases, ◌⊎◌, inl, inr, ltb, length,
}
use multi_trade_platform.Hub.Topics.{contains, is_set}
use multi_trade_platform.Hub.Run.{
  Hub, Client, running, deadlocked, panicked, set_client, unsubscribe_all, deliver, deliver_all,
  send_capacity,
}

abbrev pub pushed : String → Client → Client
pushed message k = record k { pending = k.pending ++ message ∷ [] }

abbrev pub push_to : ℕ → String → Hub → Hub
push_to c message h = record h { client = set_client c (pushed message (h.client c)) h.client }

-- The clients of the list have the message behind what they had, and nothing else is changed.
pub record Delivered (cs : List ℕ) (message : String) (h h' : Hub) : Type 0 where
  pub subscriptions : h'.subscriptions ≡ h.subscriptions
  pub unregister_queue : h'.unregister_queue ≡ h.unregister_queue
  pub read_locked : h'.read_locked ≡ h.read_locked
  pub client :
      (d : ℕ) → h'.client d ≡ (if contains d cs then pushed message (h.client d) else h.client d)

pub deliver_open :
    (c : ℕ) (message : String) (h : Hub)
    → (h.client c).closed ≡ false
    → (length (h.client c).pending) < send_capacity
    → deliver c message h ≡ running (push_to c message h)
unfolding deliver
deliver_open c message h is_open room = ground arith

pub deliver_full :
    (c : ℕ) (message : String) (h : Hub)
    → h.read_locked ≡ true
    → (h.client c).closed ≡ false
    → send_capacity ≤ length (h.client c).pending
    → deliver c message h ≡ deadlocked
unfolding deliver unsubscribe_all
deliver_full c message h locked is_open full = ground arith

deliver_closed :
    (c : ℕ) (message : String) (h : Hub)
    → (h.client c).closed ≡ true
    → deliver c message h ≡ panicked
unfolding deliver
deliver_closed c message h shut = ground arith

-- All clients of a list have room for one more message.
abbrev pub AllRoom : List ℕ → Hub → Type 0
AllRoom cs h = (d : ℕ) → contains d cs ≡ true → length (h.client d).pending < send_capacity

-- All clients of a list are open.
abbrev pub AllOpen : List ℕ → Hub → Type 0
AllOpen cs h = (d : ℕ) → contains d cs ≡ true → (h.client d).closed ≡ false

module _ (c : ℕ) (cs : List ℕ) (message : String) (h : Hub) (once : is_set (c ∷ cs) ≡ true) where
  others_unchanged : (d : ℕ) → contains d cs ≡ true → (push_to c message h).client d ≡ h.client d
  others_unchanged d mem = elim (Bool-cases (d == c)) [
    | inl same ↦
        let eq : d ≡ c = ground arith in
        let m : contains c cs ≡ true = subst (λ x. contains x cs ≡ true) eq mem in
        absurd (ground arith)
    | inr other ↦ ground arith
  ]

  AllOpen-tail : AllOpen (c ∷ cs) h → AllOpen cs (push_to c message h)
  AllOpen-tail all d mem = ap Client.closed (others_unchanged d mem) ∙ all d (ground arith)

  Delivered-cons :
      (h' : Hub) → Delivered cs message (push_to c message h) h' → Delivered (c ∷ cs) message h h'
  Delivered-cons h' rest = record {
    subscriptions = rest.subscriptions;
    unregister_queue = rest.unregister_queue;
    read_locked = rest.read_locked;
    client = λ d. let r = rest.client d in let o = others_unchanged d in ground arith;
  }

pub deliver_all_room :
    (cs : List ℕ) (message : String) (h : Hub)
    → is_set cs ≡ true
    → AllOpen cs h
    → AllRoom cs h
    → (h' : Hub) × (deliver_all cs message h ≡ running h') × Delivered cs message h h'
unfolding deliver_all
deliver_all_room [] message h once all room = (
  h,
  refl,
  record { subscriptions = refl; unregister_queue = refl; read_locked = refl; client = λ d. refl },
)
deliver_all_room (c ∷ cs) message h once all room =
    let first = deliver_open c message h (all c (ground arith)) (room c (ground arith)) in
    let (h', e, rest) =
      deliver_all_room cs message (push_to c message h) (ground arith)
        (AllOpen-tail c cs message h once all)
        (λ d mem.
          subst (λ (k : Client). length k.pending < send_capacity)
            (sym (others_unchanged c cs message h once d mem)) (room d (ground arith))) in
    (h', rw first e, Delivered-cons c cs message h once h' rest)

AllRoom-cons :
    (c : ℕ) (cs : List ℕ) (message : String) (h : Hub)
    → is_set (c ∷ cs) ≡ true
    → length (h.client c).pending < send_capacity
    → AllRoom cs (push_to c message h)
    → AllRoom (c ∷ cs) h
AllRoom-cons c cs message h once room rest d mem = elim (Bool-cases (d == c)) [
  | inl same ↦ ground arith
  | inr other ↦
      let tail : contains d cs ≡ true = ground arith in
      subst (λ (k : Client). length k.pending < send_capacity)
        (others_unchanged c cs message h once d tail) (rest d tail)
]

-- The loop goes through, or it waits for its own lock.
deliver_all-cases :
    (cs : List ℕ) (message : String) (h : Hub)
    → h.read_locked ≡ true
    → is_set cs ≡ true
    → AllOpen cs h
    → AllRoom cs h ⊎ (deliver_all cs message h ≡ deadlocked)
unfolding deliver_all
deliver_all-cases [] message h locked once all = inl (λ d mem. cc)
deliver_all-cases (c ∷ cs) message h locked once all =
    elim (Bool-cases (ltb (length (h.client c).pending) send_capacity)) [
      | inl room ↦
          let first = deliver_open c message h (all c (ground arith)) (ground arith) in
          elim (deliver_all-cases cs message (push_to c message h) locked (ground arith)
            (AllOpen-tail c cs message h once all)) [
              | inl rest ↦ inl (AllRoom-cons c cs message h once (ground arith) rest)
              | inr e ↦ inr (rw first e)
            ]
      | inr full ↦
          inr (rw (deliver_full c message h locked (all c (ground arith)) (ground arith)) refl)
    ]

-- A client without room stops it, wherever it stands in the list.
pub deliver_all_full :
    (cs : List ℕ) (message : String) (h : Hub) (c : ℕ)
    → h.read_locked ≡ true
    → is_set cs ≡ true
    → AllOpen cs h
    → contains c cs ≡ true
    → send_capacity ≤ length (h.client c).pending
    → deliver_all cs message h ≡ deadlocked
deliver_all_full cs message h c locked once all mem full =
    elim (deliver_all-cases cs message h locked once all) [
      | inl room ↦ let r = room c mem in absurd (ground arith)
      | inr e ↦ e
    ]

pub deliver_all-Delivered :
    (cs : List ℕ) (message : String) (h : Hub)
    → h.read_locked ≡ true
    → is_set cs ≡ true
    → AllOpen cs h
    → ((h' : Hub) × (deliver_all cs message h ≡ running h') × Delivered cs message h h')
      ⊎ (deliver_all cs message h ≡ deadlocked)
deliver_all-Delivered cs message h locked once all =
    elim (deliver_all-cases cs message h locked once all) [
      | inl room ↦ inl (deliver_all_room cs message h once all room)
      | inr e ↦ inr e
    ]
