-- ===== src/Matching/Choice.antt =====
-- matcher.go: the choice of a candidate among the open orders of the other side.
use mathlib.Core.List.{Memᴰ}
use mathlib.Core.List.Memᴰ.{head, tail, not-nil, cases_cons}
use multi_trade_platform.Base.{
  ℕ, ◌≡◌, ap, sym, subst, ◌∙◌, arith, Bool, true, false, List, [], ◌∷◌, Option, none, some, ok,
  find_row, find_row-holds, select, Bool-cases, inl, inr, refl, not, ◌&&◌, ◌||◌,
}
use multi_trade_platform.Store.{World, Order, Side, ◌>>=◌}
use multi_trade_platform.Store.Laws.{statement-ok, >>=-step}
use multi_trade_platform.Order.Repository.{
  is_candidate, precedes, sort_rows, get_open_orders_for_matching,
}
use multi_trade_platform.Matching.Matcher.{first_crossing, find_best_candidate}
use multi_trade_platform.Matching.Priority.{
  is_eligible, first_crossing-find_row, sort_rows-Sorted, sort_rows-mem, mem-sort_rows,
  find_row-best,
}

module _ (p : Order → Bool) where
  select-mem : (o : Order) (xs : List Order) → Memᴰ o xs → p o ≡ true → Memᴰ o (select p xs)
  select-mem o [] m good = m
  select-mem o (x ∷ xs) m good = elim (Bool-cases (p x)) [
    | inl h ↦
        let e : select p (x ∷ xs) ≡ x ∷ select p xs = ground arith in
        subst (Memᴰ o) (sym e) (elim (cases_cons m) [
          | inl is_x ↦ head is_x
          | inr later ↦ tail (select-mem o xs later good)
        ])
    | inr h ↦
        let e : select p (x ∷ xs) ≡ select p xs = ground arith in
        subst (Memᴰ o) (sym e) (elim (cases_cons m) [
          | inl is_x ↦ let clash : true ≡ false = sym good ∙ (ap p is_x ∙ h) in cc
          | inr later ↦ select-mem o xs later good
        ])
  ]

  pub mem-select : (o : Order) (xs : List Order) → Memᴰ o (select p xs) → Memᴰ o xs × (p o ≡ true)
  mem-select o [] m = absurd (not-nil m)
  mem-select o (x ∷ xs) m = elim (Bool-cases (p x)) [
    | inl h ↦
        let e : select p (x ∷ xs) ≡ x ∷ select p xs = ground arith in
        elim (cases_cons (subst (Memᴰ o) e m)) [
          | inl is_x ↦ (head is_x, ap p is_x ∙ h)
          | inr later ↦ let (k, good) = mem-select o xs later in (tail k, good)
        ]
    | inr h ↦
        let e : select p (x ∷ xs) ≡ select p xs = ground arith in
        let (k, good) = mem-select o xs (subst (Memᴰ o) e m) in (tail k, good)
  ]

  pub find_row-mem : (xs : List Order) (c : Order) → find_row p xs ≡ some c → Memᴰ c xs
  find_row-mem [] c e = absurd (ground arith)
  find_row-mem (x ∷ xs) c e = elim (Bool-cases (p x)) [
    | inl h ↦ head (ground arith)
    | inr h ↦ tail (find_row-mem xs c (ground arith))
  ]

  find_row-none : (xs : List Order) (o : Order) → find_row p xs ≡ none → Memᴰ o xs → p o ≡ false
  find_row-none [] o e m = absurd (not-nil m)
  find_row-none (x ∷ xs) o e m = elim (Bool-cases (p x)) [
    | inl h ↦ absurd (ground arith)
    | inr h ↦ elim (cases_cons m) [
      | inl is_x ↦ ap p is_x ∙ h
      | inr later ↦ find_row-none xs o (ground arith) later
    ]
  ]

get_open_orders_for_matching-ok :
    (asset_id : ℕ) (side : Side) (w : World) (rows : List Order) (w' : World)
    → get_open_orders_for_matching asset_id side w ≡ (ok rows, w')
    → sort_rows side (select (is_candidate asset_id side) w.db.orders) ≡ rows
unfolding get_open_orders_for_matching ◌>>=◌
get_open_orders_for_matching-ok asset_id side w rows w' e =
    let done = statement-ok _ w rows w' e in ground arith

-- What the query returns, and what the engine takes from it.
pub find_best_candidate-ok :
    (asset_id : ℕ) (side : Side) (incoming : Order) (w : World) (r : Option Order) (w' : World)
    → find_best_candidate asset_id side incoming w ≡ (ok r, w')
    → find_row
        (is_eligible incoming)
        (sort_rows side (select (is_candidate asset_id side) w.db.orders))
      ≡ r
unfolding find_best_candidate
find_best_candidate-ok asset_id side incoming w r w' e = >>=-step _ _ e λ rows w₁ e₁ k₁.
    let sorted = get_open_orders_for_matching-ok asset_id side w rows w₁ e₁ in
    let taken : first_crossing incoming rows ≡ r = ground arith in
    rw sorted (sym (first_crossing-find_row incoming rows) ∙ taken)

-- Every order of the list is of no use to the incoming order (not an open one of the asset on the side,
-- or not eligible), or stands after the candidate or with it.
abbrev pub is_best : ℕ → Side → Order → Order → List Order → Bool
is_best asset_id side incoming c [] = true
is_best asset_id side incoming c (o ∷ os) =
    (not (is_candidate asset_id side o && is_eligible incoming o) || precedes side c o)
    && is_best asset_id side incoming c os

module _ (asset_id : ℕ) (side : Side) (incoming c : Order) where
  -- Those of use, in the order of the query.
  best_in :
      (chosen : List Order) (os : List Order)
      → find_row (is_eligible incoming) (sort_rows side chosen) ≡ some c
      → ((o : Order) → Memᴰ o os → is_candidate asset_id side o ≡ true → Memᴰ o chosen)
      → is_best asset_id side incoming c os ≡ true
  best_in chosen [] found all = refl
  best_in chosen (o ∷ os) found all =
      let rest = best_in chosen os found λ x m k. all x (tail m) k in
      elim (Bool-cases (is_candidate asset_id side o)) [
        | inr other ↦ ground arith
        | inl candidate ↦ elim (Bool-cases (is_eligible incoming o)) [
          | inr other ↦ ground arith
          | inl eligible ↦
              let first =
                find_row-best side (is_eligible incoming) _ c o (sort_rows-Sorted side chosen) found
                  (sort_rows-mem side o chosen (all o (head refl) candidate)) eligible in
              ground arith
        ]
      ]

-- The candidate that the engine finds is an open order of the asset on the wanted side, of another user,
-- at a price that crosses; and it stands before, or with, every order of the table that is all that: it
-- has the best price, and is the oldest at that price.
pub find_best_candidate-best :
    (asset_id : ℕ) (side : Side) (incoming : Order) (w : World) (c : Order) (w' : World)
    → find_best_candidate asset_id side incoming w ≡ (ok (some c), w')
    → Memᴰ c w.db.orders
      × (is_candidate asset_id side c ≡ true)
      × (is_eligible incoming c ≡ true)
      × (is_best asset_id side incoming c w.db.orders ≡ true)
find_best_candidate-best asset_id side incoming w c w' e =
    let chosen = select (is_candidate asset_id side) w.db.orders in
    let found = find_best_candidate-ok asset_id side incoming w (some c) w' e in
    let (stored, candidate) =
      mem-select (is_candidate asset_id side) c w.db.orders
        (mem-sort_rows side c chosen (find_row-mem (is_eligible incoming) _ c found)) in
    (
      stored,
      candidate,
      find_row-holds (is_eligible incoming) _ c found,
      best_in asset_id side incoming c chosen w.db.orders found
          (λ o m k. select-mem (is_candidate asset_id side) o w.db.orders m k),
    )

-- Where the engine finds no candidate, no open order of the asset on the wanted side is another user's
-- with a price that crosses.
pub find_best_candidate-none :
    (asset_id : ℕ) (side : Side) (incoming : Order) (w w' : World) (o : Order)
    → find_best_candidate asset_id side incoming w ≡ (ok none, w')
    → Memᴰ o w.db.orders
    → is_candidate asset_id side o ≡ true
    → is_eligible incoming o ≡ false
find_best_candidate-none asset_id side incoming w w' o e m candidate =
    find_row-none (is_eligible incoming) _ o
      (find_best_candidate-ok asset_id side incoming w none w' e)
      (sort_rows-mem side o _ (select-mem (is_candidate asset_id side) o w.db.orders m candidate))
