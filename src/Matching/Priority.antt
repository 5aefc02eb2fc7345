-- ===== src/Matching/Priority.antt =====
-- Price-time priority: the candidate that the engine chooses is the best of those that it could take.
use mathlib.Core.List.{Memᴰ}
use mathlib.Core.List.Memᴰ.{head, tail, not-nil, cases_cons}
use multi_trade_platform.Base.{
  ◌≡◌, refl, ap, sym, subst, ◌∙◌, arith, Bool, true, false, not, ◌&&◌, List, [], ◌∷◌, some, ◌==◌,
  find_row, Bool-cases, ◌⊎◌, inl, inr,
}
use multi_trade_platform.Store.{Order, Side, buy, sell}
use multi_trade_platform.Order.Repository.{precedes, insert_row, sort_rows}
use multi_trade_platform.Matching.Matcher.{crosses, first_crossing}

-- An order of another user, at a price that crosses.
abbrev pub is_eligible : Order → Order → Bool
is_eligible incoming o =
    not (o.user_id == incoming.user_id) && crosses incoming.side incoming.price o.price

pub first_crossing-find_row :
    (incoming : Order) (cs : List Order)
    → first_crossing incoming cs ≡ find_row (is_eligible incoming) cs
unfolding first_crossing
first_crossing-find_row incoming [] = refl
first_crossing-find_row incoming (c ∷ cs) =
    let rest = first_crossing-find_row incoming cs in
    elim (Bool-cases (c.user_id == incoming.user_id)) [
      | inl h ↦ ground arith
      | inr h ↦ ground arith
    ]

-- The order a stands before, or with, every order of a list.
pub Heads : Side → Order → List Order → Type 0
Heads side a xs = (o : Order) → Memᴰ o xs → precedes side a o ≡ true

-- Each order of a list stands before, or with, those after it.
pub Sorted : Side → List Order → Type 0
Sorted side [] = Unit
Sorted side (x ∷ xs) = Heads side x xs × Sorted side xs

precedes_refl : (side : Side) (a : Order) → precedes side a a ≡ true
precedes_refl buy a = ground arith
precedes_refl sell a = ground arith

precedes-total : (side : Side) (a b : Order) → precedes side a b ≡ false → precedes side b a ≡ true
precedes-total buy a b h = ground arith
precedes-total sell a b h = ground arith

precedes_trans :
    (side : Side) (a b c : Order)
    → precedes side a b ≡ true
    → precedes side b c ≡ true
    → precedes side a c ≡ true
precedes_trans buy a b c h k = ground arith
precedes_trans sell a b c h k = ground arith

insert_row_cons :
    (side : Side) (a x : Order) (xs : List Order)
    → ((precedes side a x ≡ true) × (insert_row side a (x ∷ xs) ≡ a ∷ x ∷ xs))
      ⊎ ((precedes side a x ≡ false) × (insert_row side a (x ∷ xs) ≡ x ∷ insert_row side a xs))
unfolding insert_row
insert_row_cons side a x xs = elim (Bool-cases (precedes side a x)) [
  | inl h ↦ inl (h, ground arith)
  | inr h ↦ inr (h, ground arith)
]

mem-insert_row :
    (side : Side) (a o : Order) (xs : List Order)
    → Memᴰ o (insert_row side a xs)
    → (o ≡ a) ⊎ Memᴰ o xs
unfolding insert_row
mem-insert_row side a o [] m = cases_cons m
mem-insert_row side a o (x ∷ xs) m = elim (insert_row_cons side a x xs) [
  | inl (h, e) ↦ cases_cons (subst (Memᴰ o) e m)
  | inr (h, e) ↦ elim (cases_cons (subst (Memᴰ o) e m)) [
    | inl is_x ↦ inr (head is_x)
    | inr k ↦ elim (mem-insert_row side a o xs k) [
      | inl is_a ↦ inl is_a
      | inr later ↦ inr (tail later)
    ]
  ]
]

insert_row-mem :
    (side : Side) (a o : Order) (xs : List Order)
    → (o ≡ a) ⊎ Memᴰ o xs
    → Memᴰ o (insert_row side a xs)
unfolding insert_row
insert_row-mem side a o [] (inl e) = head e
insert_row-mem side a o [] (inr m) = absurd (not-nil m)
insert_row-mem side a o (x ∷ xs) m = elim (insert_row_cons side a x xs) [
  | inl (h, e) ↦ subst (Memᴰ o) (sym e) (elim m [ inl is_a ↦ head is_a | inr k ↦ tail k ])
  | inr (h, e) ↦ subst (Memᴰ o) (sym e) (elim m [
    | inl is_a ↦ tail (insert_row-mem side a o xs (inl is_a))
    | inr k ↦ elim (cases_cons k) [
      | inl is_x ↦ head is_x
      | inr later ↦ tail (insert_row-mem side a o xs (inr later))
    ]
  ])
]

Heads-cons :
    (side : Side) (a x : Order) (xs : List Order)
    → precedes side a x ≡ true
    → Heads side x xs
    → Heads side a (x ∷ xs)
unfolding Heads
Heads-cons side a x xs first rest o m = elim (cases_cons m) [
  | inl is_x ↦ rw is_x first
  | inr later ↦ precedes_trans side a x o first (rest o later)
]

insert_row-Sorted :
    (side : Side) (a : Order) (xs : List Order)
    → Sorted side xs
    → Sorted side (insert_row side a xs)
unfolding insert_row Sorted Heads
insert_row-Sorted side a [] s = (λ o m. absurd (not-nil m), tt)
insert_row-Sorted side a (x ∷ xs) s = elim (insert_row_cons side a x xs) [
  | inl (h, e) ↦ subst (Sorted side) (sym e) (Heads-cons side a x xs h s.0, s)
  | inr (h, e) ↦ subst (Sorted side) (sym e) (
    λ o m. elim (mem-insert_row side a o xs m) [
      | inl is_a ↦ rw is_a (precedes-total side a x h)
      | inr later ↦ s.0 o later
    ],
    insert_row-Sorted side a xs s.1,
  )
]

pub sort_rows-Sorted : (side : Side) (xs : List Order) → Sorted side (sort_rows side xs)
unfolding sort_rows Sorted
sort_rows-Sorted side [] = tt
sort_rows-Sorted side (x ∷ xs) =
    insert_row-Sorted side x (sort_rows side xs) (sort_rows-Sorted side xs)

pub sort_rows-mem :
    (side : Side) (o : Order) (xs : List Order) → Memᴰ o xs → Memᴰ o (sort_rows side xs)
unfolding sort_rows
sort_rows-mem side o [] m = m
sort_rows-mem side o (x ∷ xs) m =
    insert_row-mem side x o (sort_rows side xs) (elim (cases_cons m) [
      | inl is_x ↦ inl is_x
      | inr later ↦ inr (sort_rows-mem side o xs later)
    ])

pub mem-sort_rows :
    (side : Side) (o : Order) (xs : List Order) → Memᴰ o (sort_rows side xs) → Memᴰ o xs
unfolding sort_rows
mem-sort_rows side o [] m = m
mem-sort_rows side o (x ∷ xs) m = elim (mem-insert_row side x o (sort_rows side xs) m) [
  | inl is_x ↦ head is_x
  | inr later ↦ tail (mem-sort_rows side o xs later)
]

-- The first order of a sorted list that passes a test is the best of those that pass.
pub find_row-best :
    (side : Side) (p : Order → Bool) (xs : List Order) (c o : Order)
    → Sorted side xs
    → find_row p xs ≡ some c
    → Memᴰ o xs
    → p o ≡ true
    → precedes side c o ≡ true
unfolding Sorted Heads
find_row-best side p [] c o s found m good = absurd (not-nil m)
find_row-best side p (x ∷ xs) c o s found m good = elim (Bool-cases (p x)) [
  | inl h ↦
      let is_x : x ≡ c = ground arith in
      rw (← is_x) (elim (cases_cons m) [
        | inl is_head ↦ rw is_head (precedes_refl side x)
        | inr later ↦ s.0 o later
      ])
  | inr h ↦ elim (cases_cons m) [
    | inl is_head ↦ let clash : true ≡ false = sym good ∙ (ap p is_head ∙ h) in cc
    | inr later ↦ find_row-best side p xs c o s.1 (ground arith) later good
  ]
]
