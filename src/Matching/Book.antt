-- ===== src/Matching/Book.antt =====
-- Books of whole orders, which trades keep whole.
use mathlib.Core.List.{Memᴰ}
use mathlib.Core.List.Memᴰ.{head, tail, not-nil, cases_cons}
use multi_trade_platform.Base.{
  ℕ, ◌+◌, ◌*◌, ◌^◌, ◌≤◌, ◌<◌, ◌≡◌, ◌≢◌, refl, sym, ap, ◌∙◌, subst, arith, Bool, true, List, [], ◌∷◌,
  some, find_row, find_row-update_rows, find_row-update_rows_hit, update_rows, leb, ◌==◌,
  if◌then◌else◌, Bool-cases, inl, inr,
}
use multi_trade_platform.Decimal.BigFloat.{add}
use multi_trade_platform.Decimal.Whole.{add_whole}
use multi_trade_platform.Store.{Order, OrderStatus, numeric_limit}
use multi_trade_platform.Order.Repository.{has_id, add_fill, is_open}
use multi_trade_platform.Matching.Matcher.{engine_precision, must_parse_big, new_status}
use multi_trade_platform.Matching.Executor.Steps.{status_after}
use multi_trade_platform.Matching.Choice.{find_row-mem}
use multi_trade_platform.Matching.Numbers.{IsStored, ge_float-columns}

-- A whole number of the asset, in units of 10^-8.
abbrev pub Whole : ℕ → Type 0
Whole n = (k : ℕ) × (n ≡ k * 10 ^ 8)

-- An order for whole numbers, which is open only as long as something is left.
pub record IsWhole (o : Order) : Type 0 where
  pub stored : IsStored o
  pub quantity_whole : Whole o.quantity
  pub filled_whole : Whole o.filled_quantity
  pub within : o.filled_quantity ≤ o.quantity
  pub left : is_open o.status ≡ true → o.filled_quantity < o.quantity

-- The id is the primary key of the orders.
pub record IsBook (os : List Order) : Type 0 where
  pub whole : (o : Order) → Memᴰ o os → IsWhole o
  pub unique : (o : Order) → Memᴰ o os → find_row (has_id o.id) os ≡ some o

abbrev pub filled_by : ℕ → OrderStatus → Order → Order
filled_by q status o = record o { filled_quantity = o.filled_quantity + q; status = status }

add_columns :
    (m n : ℕ)
    → Whole m
    → Whole n
    → m + n < numeric_limit
    → add engine_precision (must_parse_big m) (must_parse_big n) ≡ must_parse_big (m + n)
add_columns m n (a, m_eq) (c, n_eq) fits =
    let total : (a + c) * 10 ^ 8 ≡ m + n = omega arith in
    ap (λ (k : ℕ). add engine_precision (must_parse_big k) (must_parse_big n)) m_eq
    ∙ ap (λ (k : ℕ). add engine_precision (must_parse_big (a * 10 ^ 8)) (must_parse_big k)) n_eq
    ∙ add_whole engine_precision a c (omega arith)
    ∙ ap must_parse_big total

status_after_left :
    (o : Order) (q : ℕ)
    → IsWhole o
    → Whole q
    → o.filled_quantity + q ≤ o.quantity
    → is_open (status_after o q) ≡ true
    → o.filled_quantity + q < o.quantity
unfolding new_status
status_after_left o q whole q_whole le is_still_open =
    let fits = whole.stored.quantity_fits in
    let sum = add_columns o.filled_quantity q whole.filled_whole q_whole (omega arith) in
    let compared = ge_float-columns (o.filled_quantity + q) o.quantity (omega arith) fits in
    let done : is_open (
          if leb o.quantity (o.filled_quantity + q)
          then OrderStatus.filled
          else OrderStatus.partially_filled)
        ≡ true =
      subst
        (λ (t : Bool).
          is_open (if t then OrderStatus.filled else OrderStatus.partially_filled) ≡ true)
        compared
        (subst (λ f. is_open (new_status f (must_parse_big o.quantity)) ≡ true) sum
          is_still_open) in
    ground arith

pub filled_by-IsWhole :
    (o : Order) (q : ℕ)
    → IsWhole o
    → Whole q
    → o.filled_quantity + q ≤ o.quantity
    → IsWhole (filled_by q (status_after o q) o)
filled_by-IsWhole o q whole q_whole le = record {
  stored = record {
    price_fits = whole.stored.price_fits;
    quantity_fits = whole.stored.quantity_fits;
  };
  quantity_whole = whole.quantity_whole;
  filled_whole =
      let (a, a_eq) = whole.filled_whole in let (c, c_eq) = q_whole in (a + c, omega arith);
  within = le;
  left = λ h. status_after_left o q whole q_whole le h;
}

mem-update_rows :
    (p : Order → Bool) (f : Order → Order) (o : Order) (os : List Order)
    → Memᴰ o (update_rows p f os)
    → (x : Order) × Memᴰ x os × (o ≡ (if p x then f x else x))
mem-update_rows p f o [] m = absurd (not-nil m)
mem-update_rows p f o (x ∷ os) m = elim (cases_cons m) [
  | inl here ↦ (x, head refl, here)
  | inr later ↦ let (y, there, e) = mem-update_rows p f o os later in (y, tail there, e)
]

-- A change of one order of the book.
module _ (b : Order) (f : Order → Order) (os : List Order) (book : IsBook os)
    (found : find_row (has_id b.id) os ≡ some b) (keeps : (x : Order) → (f x).id ≡ x.id) where
  same_row : (x : Order) → Memᴰ x os → has_id b.id x ≡ true → x ≡ b
  same_row x there hit =
      let id_eq : x.id ≡ b.id = ground arith in
      let at_b = subst (λ k. find_row (has_id k) os ≡ some x) id_eq (book.unique x there) in
      ground arith

  changed_unique :
      (x o : Order)
      → Memᴰ x os
      → o ≡ (if has_id b.id x then f x else x)
      → find_row (has_id o.id) (update_rows (has_id b.id) f os) ≡ some o
  changed_unique x o there e = elim (Bool-cases (has_id b.id x)) [
    | inl hit ↦
        let written : o ≡ f x = e ∙ ap (λ (t : Bool). if t then f x else x) hit in
        let at_x =
          find_row-update_rows_hit (has_id x.id) (has_id b.id) f os x
            (λ y. ap (λ k. k == x.id) (keeps y)) hit (book.unique x there) in
        subst (λ (z : Order). find_row (has_id z.id) (update_rows (has_id b.id) f os) ≡ some z)
          (sym written)
          (subst (λ k. find_row (has_id k) (update_rows (has_id b.id) f os) ≡ some (f x))
            (sym (keeps x)) at_x)
    | inr miss ↦
        let same : o ≡ x = e ∙ ap (λ (t : Bool). if t then f x else x) miss in
        let at_x =
          find_row-update_rows (has_id x.id) (has_id b.id) f os x
            (λ y. ap (λ k. k == x.id) (keeps y)) miss (book.unique x there) in
        subst (λ (z : Order). find_row (has_id z.id) (update_rows (has_id b.id) f os) ≡ some z)
          (sym same) at_x
  ]

  changed_rows :
      (x o : Order) → IsWhole (f b) → Memᴰ x os → o ≡ (if has_id b.id x then f x else x) → IsWhole o
  changed_rows x o whole there e = elim (Bool-cases (has_id b.id x)) [
    | inl hit ↦
        let written : o ≡ f b =
          e ∙ ap (λ (t : Bool). if t then f x else x) hit ∙ ap f (same_row x there hit) in
        subst IsWhole (sym written) whole
    | inr miss ↦
        let same : o ≡ x = e ∙ ap (λ (t : Bool). if t then f x else x) miss in
        subst IsWhole (sym same) (book.whole x there)
  ]

  update_rows-IsBook : IsWhole (f b) → IsBook (update_rows (has_id b.id) f os)
  update_rows-IsBook whole = record {
    whole = λ o m.
        let (x, there, e) = mem-update_rows (has_id b.id) f o os m in
        changed_rows x o whole there e;
    unique = λ o m.
        let (x, there, e) = mem-update_rows (has_id b.id) f o os m in changed_unique x o there e;
  }

-- A fill of one order of the book.
pub add_fill-IsBook :
    (b : Order) (q : ℕ) (os : List Order)
    → IsBook os
    → find_row (has_id b.id) os ≡ some b
    → Whole q
    → b.filled_quantity + q ≤ b.quantity
    → IsBook (add_fill b.id q (status_after b q) os)
add_fill-IsBook b q os book found q_whole le =
    update_rows-IsBook b (filled_by q (status_after b q)) os book found (λ x. refl)
      (filled_by-IsWhole b q (book.whole b (find_row-mem (has_id b.id) os b found)) q_whole le)

-- What is found behind a fill, of the order itself and of another one.
pub find_row-add_fill :
    (b : Order) (q : ℕ) (status : OrderStatus) (os : List Order)
    → find_row (has_id b.id) os ≡ some b
    → find_row (has_id b.id) (add_fill b.id q status os) ≡ some (filled_by q status b)
find_row-add_fill b q status os found =
    find_row-update_rows_hit (has_id b.id) (has_id b.id) (filled_by q status) os b (λ y. refl)
      (ground arith) found

pub find_row-add_fill_other :
    (s b : Order) (q : ℕ) (status : OrderStatus) (os : List Order)
    → b.id ≢ s.id
    → find_row (has_id s.id) os ≡ some s
    → find_row (has_id s.id) (add_fill b.id q status os) ≡ some s
find_row-add_fill_other s b q status os differ found =
    find_row-update_rows (has_id s.id) (has_id b.id) (filled_by q status) os s (λ y. refl)
      (ground arith) found
