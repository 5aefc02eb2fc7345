-- ===== src/Hub/Topics.antt =====
-- hub.go: the map from topics to sets of clients. A client is known by a number, its address.
use Prim.Native.String.{String}
use text.Mathlib.Text.{◌==◌ as str_eq}
use text.Mathlib.TextEquality.{eq_iff}
use multi_trade_platform.Base.{
  ℕ, ◌≡◌, refl, arith, Bool, true, false, not, ◌&&◌, ◌||◌, List, [], ◌∷◌, ◌==◌, if◌then◌else◌,
}

-- A set of clients.
abbrev pub contains : ℕ → List ℕ → Bool
contains c [] = false
contains c (d ∷ ds) = d == c || contains c ds

abbrev pub add_client : ℕ → List ℕ → List ℕ
add_client c ds = if contains c ds then ds else c ∷ ds

-- delete(clients, client)
abbrev pub remove_client : ℕ → List ℕ → List ℕ
remove_client c [] = []
remove_client c (d ∷ ds) = if d == c then remove_client c ds else d ∷ remove_client c ds

abbrev pub Index : Type 0
Index = List (String × List ℕ)

-- h.subscriptions[topic]; a topic that is not there has no clients.
unfoldable pub members : String → Index → List ℕ
members t [] = []
members t ((s, cs) ∷ m) = if str_eq s t then cs else members t m

unfoldable pub has_topic : String → Index → Bool
has_topic t [] = false
has_topic t ((s, cs) ∷ m) = str_eq s t || has_topic t m

unfoldable pub set_members : String → List ℕ → Index → Index
set_members t cs [] = (t, cs) ∷ []
set_members t cs ((s, ds) ∷ m) = if str_eq s t then (t, cs) ∷ m else (s, ds) ∷ set_members t cs m

-- delete(h.subscriptions, topic)
unfoldable pub remove_topic : String → Index → Index
remove_topic t [] = []
remove_topic t ((s, cs) ∷ m) = if str_eq s t then remove_topic t m else (s, cs) ∷ remove_topic t m

unfoldable pub add_member : ℕ → String → Index → Index
add_member c t m = set_members t (add_client c (members t m)) m

abbrev is_empty : List ℕ → Bool
is_empty [] = true
is_empty (c ∷ cs) = false

-- A topic without clients is dropped.
unfoldable pub remove_member : ℕ → String → Index → Index
remove_member c t m =
    let cs = remove_client c (members t m) in
    if has_topic t m then (if is_empty cs then remove_topic t m else set_members t cs m) else m

abbrev pub subscribed : ℕ → String → Index → Bool
subscribed c t m = contains c (members t m)

pub members-set_members :
    (t s : String) (cs : List ℕ) (m : Index)
    → members s (set_members t cs m) ≡ (if str_eq t s then cs else members s m)
unfolding members set_members
members-set_members t s cs [] = refl
members-set_members t s cs ((u, ds) ∷ m) =
    ground (arith, eq_iff t s, eq_iff u t, eq_iff u s, members-set_members t s cs m)

members-remove_topic :
    (t s : String) (m : Index)
    → members s (remove_topic t m) ≡ (if str_eq t s then [] else members s m)
unfolding members remove_topic
members-remove_topic t s [] = ground arith
members-remove_topic t s ((u, ds) ∷ m) =
    ground (arith, eq_iff t s, eq_iff u t, eq_iff u s, members-remove_topic t s m)

members-absent : (t : String) (m : Index) → has_topic t m ≡ false → members t m ≡ []
unfolding members has_topic
members-absent t [] h = refl
members-absent t ((s, cs) ∷ m) h = ground (arith, members-absent t m)

empty-eq-nil : (cs : List ℕ) → is_empty cs ≡ true → cs ≡ []
empty-eq-nil [] h = refl
empty-eq-nil (c ∷ cs) h = cc

-- The clients of a topic after a subscription, and after it is taken back.
pub members-add_member :
    (c : ℕ) (t s : String) (m : Index)
    → members s (add_member c t m)
      ≡ (if str_eq t s then add_client c (members s m) else members s m)
unfolding add_member
members-add_member c t s m =
    rw (members-set_members t s (add_client c (members t m)) m) (ground (arith, eq_iff t s))

pub members-remove_member :
    (c : ℕ) (t s : String) (m : Index)
    → members s (remove_member c t m)
      ≡ (if str_eq t s then remove_client c (members s m) else members s m)
unfolding remove_member
members-remove_member c t s m =
    let dropped = members-remove_topic t s m in
    let kept = members-set_members t s (remove_client c (members t m)) m in
    let empty = empty-eq-nil (remove_client c (members t m)) in
    ground (arith, dropped, kept, empty, eq_iff t s, members-absent t m)

contains-remove_client :
    (c d : ℕ) (cs : List ℕ) → contains d (remove_client c cs) ≡ (not (d == c) && contains d cs)
contains-remove_client c d [] = ground arith
contains-remove_client c d (x ∷ xs) = ground (arith, contains-remove_client c d xs)

-- No client is listed twice.
abbrev pub is_set : List ℕ → Bool
is_set [] = true
is_set (c ∷ cs) = not (contains c cs) && is_set cs

pub is_set-add_client : (c : ℕ) (cs : List ℕ) → is_set cs ≡ true → is_set (add_client c cs) ≡ true
is_set-add_client c cs h = ground arith

pub is_set-remove_client :
    (c : ℕ) (cs : List ℕ) → is_set cs ≡ true → is_set (remove_client c cs) ≡ true
is_set-remove_client c [] h = refl
is_set-remove_client c (x ∷ xs) h =
    ground (arith, is_set-remove_client c xs, contains-remove_client c x xs)

pub subscribed-add_member :
    (c d : ℕ) (t s : String) (m : Index)
    → subscribed d s (add_member c t m) ≡ (str_eq t s && d == c || subscribed d s m)
subscribed-add_member c d t s m = rw (members-add_member c t s m) (ground arith)

pub subscribed-remove_member :
    (c d : ℕ) (t s : String) (m : Index)
    → subscribed d s (remove_member c t m) ≡ (not (str_eq t s && d == c) && subscribed d s m)
subscribed-remove_member c d t s m =
    let after = contains-remove_client c d (members s m) in
    rw (members-remove_member c t s m) (ground arith)
