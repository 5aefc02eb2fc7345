-- ===== src/Matching/Queue.antt =====
-- engine.go: the engine gets through its queue.
use mathlib.Core.List.{Memᴰ}
use multi_trade_platform.Base.{
  ℕ, zero, suc, ◌^◌, ◌≤◌, ◌<◌, ◌≡◌, ◌≢◌, refl, sym, ap, subst, arith, Bool, true, false, List, [],
  ◌∷◌, Option, none, some, Result, ok, err, find_row, Option-cases, inl, inr, ◌&&◌, ◌∙◌,
  if◌then◌else◌,
}
use multi_trade_platform.Store.{World, Db, M, pure, Error, Order, Side, Trade, ◌>>=◌}
use multi_trade_platform.Store.Laws.{>>=-step}
use multi_trade_platform.Store.Reading.{
  IsReading, or_fail-IsReading, statement-IsReading, >>=-IsReading,
}
use multi_trade_platform.Order.Repository.{
  has_id, get_by_id, is_open, remaining_quantity, get_open_orders_for_matching,
}
use multi_trade_platform.Matching.Matcher.{must_parse_big, find_best_candidate}
use multi_trade_platform.Matching.Executor.{execute_trade, is_positive}
use multi_trade_platform.Matching.Laws.{execute_trade_error}
use multi_trade_platform.Matching.Choice.{find_row-mem}
use multi_trade_platform.Matching.Book.{IsBook}
use multi_trade_platform.Matching.Engine.{
  Progress, finished, out_of_fuel, opposite, process_order, match_round, match_current,
  with_candidate, after_trade, is_filled, after_order, run,
}
use multi_trade_platform.Matching.Progress.{
  get_by_id-ok, Counterpart, find_best_candidate-Counterpart, trade_round,
}
use multi_trade_platform.Matching.Termination.{process_order_ends}

module _ {A B : Type 0} (P : World → Type 0) (f : A → M B) where
  result_left :
      (r : Result Error A) (w₁ : World)
      → ((e : Error) → r ≡ err e → P w₁)
      → ((a : A) → r ≡ ok a → P (f a w₁).1)
      → P (elim r as (λ _. Result Error B × World) [ ok a ↦ f a w₁ | err e ↦ (err e, w₁) ]).1
  result_left (ok a) w₁ failed went = went a refl
  result_left (err e) w₁ failed went = failed e refl

  -- What is left behind m and f, where it is known behind an error of m and behind f.
  >>=-left :
      (m : M A) (w : World)
      → ((e : Error) (w₁ : World) → m w ≡ (err e, w₁) → P w₁)
      → ((a : A) (w₁ : World) → m w ≡ (ok a, w₁) → P (f a w₁).1)
      → P ((m >>= f) w).1
  unfolding ◌>>=◌
  >>=-left m w failed went =
      result_left (m w).0 (m w).1 (λ e h. failed e (m w).1 (ap (λ r. (r, (m w).1)) h))
        (λ a h. went a (m w).1 (ap (λ r. (r, (m w).1)) h))

abbrev HasBook : World → Type 0
HasBook w = IsBook w.db.orders

get_by_id-IsReading : (id : ℕ) → IsReading (get_by_id id)
unfolding get_by_id ◌>>=◌
get_by_id-IsReading id = statement-IsReading _ (λ w. or_fail-IsReading _ _ w)

open_orders-IsReading :
    (asset_id : ℕ) (side : Side) → IsReading (get_open_orders_for_matching asset_id side)
unfolding get_open_orders_for_matching ◌>>=◌
open_orders-IsReading asset_id side = statement-IsReading _ (λ w. refl)

find_best_candidate-IsReading :
    (asset_id : ℕ) (side : Side) (o : Order) → IsReading (find_best_candidate asset_id side o)
unfolding find_best_candidate
find_best_candidate-IsReading asset_id side o =
    >>=-IsReading _ _ (open_orders-IsReading asset_id side) λ cs w. refl

-- A call that reads leaves a book.
read_book :
    {A : Type 0} (m : M A) (w : World) (r : Result Error A) (w₁ : World)
    → IsReading m
    → HasBook w
    → m w ≡ (r, w₁)
    → HasBook w₁
read_book m w r w₁ reads book e =
    subst IsBook (ap (λ d. d.orders) (sym (reads w) ∙ ap (λ p. p.1.db) e)) book

-- The rounds that come later leave a book.
abbrev LeavesBook : M Progress → Type 0
LeavesBook m = (w : World) → HasBook w → HasBook (m w).1

if_book :
    (again : M Progress) (b : Bool) (w : World)
    → LeavesBook again
    → HasBook w
    → HasBook ((if b then pure finished else again) w).1
if_book again true w later book = book
if_book again false w later book = later w book

after_trade-book :
    (again : M Progress) (incoming : Order) (t : Trade)
    → LeavesBook again
    → LeavesBook (after_trade again incoming (some t))
unfolding after_trade
after_trade-book again incoming t later w book =
    >>=-left HasBook _ (get_by_id incoming.id) w
      (λ e w₁ h. read_book (get_by_id incoming.id) w _ w₁ (get_by_id-IsReading incoming.id) book h)
      λ o w₁ h.
        if_book again (is_filled o.status) w₁ later
          (read_book (get_by_id incoming.id) w _ w₁ (get_by_id-IsReading incoming.id) book h)

with_candidate-book :
    (again : M Progress) (incoming current : Order) (r : Option Order) (w : World)
    → LeavesBook again
    → HasBook w
    → Memᴰ current w.db.orders
    → is_open current.status ≡ true
    → ((c : Order) → r ≡ some c → Counterpart current c w.db.orders)
    → HasBook (with_candidate again incoming current r w).1
unfolding with_candidate
with_candidate-book again incoming current none w later book there going other = book
with_candidate-book again incoming current (some c) w later book there going other =
    >>=-left HasBook _ (execute_trade current c) w
      (λ e w₁ h.
        subst (λ (d : Db). IsBook d.orders) (sym (execute_trade_error current c w e w₁ h)) book)
      λ o w₁ h.
        let (t, some_t, book₁, on) =
          trade_round current c w o w₁ book there going (other c refl) h in
        subst (λ (x : Option Trade). HasBook (after_trade again incoming x w₁).1) (sym some_t)
          (after_trade-book again incoming t later w₁ book₁)

match_current-book :
    (again : M Progress) (incoming current : Order) (w : World)
    → LeavesBook again
    → HasBook w
    → Memᴰ current w.db.orders
    → is_open current.status ≡ true
    → HasBook (match_current again incoming current w).1
unfolding match_current
match_current-book again incoming current w later book there going =
    let side = opposite incoming.side in
    let reads = find_best_candidate-IsReading incoming.asset_id side current in
    >>=-left HasBook _ (find_best_candidate incoming.asset_id side current) w
      (λ e w₁ h. read_book (find_best_candidate incoming.asset_id side current) w _ w₁ reads book h)
      λ r w₁ h.
        let same : w₁.db ≡ w.db = ap (λ p. p.1.db) (sym h) ∙ reads w in
        with_candidate-book again incoming current r w₁ later (rw same book) (rw same there) going
          (λ c is_c. rw same (
            find_best_candidate-Counterpart incoming.asset_id side current w c w₁ (
              subst
                (λ (x : Option Order).
                  find_best_candidate incoming.asset_id side current w ≡ (ok x, w₁))
                is_c h)))

if_current :
    (b : Bool) (m : M Progress) (w : World)
    → (b ≡ true → HasBook (m w).1)
    → HasBook w
    → HasBook ((if b then m else pure finished) w).1
if_current true m w left book = left refl
if_current false m w left book = book

match_round-book :
    (again : M Progress) (incoming : Order)
    → LeavesBook again
    → LeavesBook (match_round again incoming)
unfolding match_round
match_round-book again incoming later w book =
    >>=-left HasBook _ (get_by_id incoming.id) w
      (λ e w₁ h. read_book (get_by_id incoming.id) w _ w₁ (get_by_id-IsReading incoming.id) book h)
      λ read w₁ h.
        let (found, same) = get_by_id-ok incoming.id w read w₁ h in
        let book₁ : HasBook w₁ = rw same book in
        let there : Memᴰ read w₁.db.orders =
          rw same (find_row-mem (has_id incoming.id) w.db.orders read found) in
        if_current (is_open read.status && is_positive (must_parse_big (remaining_quantity read)))
          (match_current again incoming read) w₁
          (λ going. match_current-book again incoming read w₁ later book₁ there (ground arith))
          book₁

process_order-book : (n : ℕ) (incoming : Order) → LeavesBook (process_order n incoming)
unfolding process_order
process_order-book zero incoming w book = book
process_order-book (suc n) incoming w book =
    match_round-book (process_order n incoming) incoming (process_order-book n incoming) w book

-- An order that has no row ends in an error.
process_order_absent :
    (n : ℕ) (incoming : Order) (w : World)
    → 0 < n
    → find_row (has_id incoming.id) w.db.orders ≡ none
    → (process_order n incoming w).0 ≢ ok out_of_fuel
unfolding process_order match_round
process_order_absent zero incoming w some_fuel absent e = absurd (omega arith)
process_order_absent (suc n) incoming w some_fuel absent e =
    >>=-step _ _ (ap (λ r. (r, (process_order (suc n) incoming w).1)) e)
      λ read w₁ e₁ k₁. let (found, same) = get_by_id-ok incoming.id w read w₁ e₁ in ground arith

process_order_done :
    (n : ℕ) (incoming : Order) (w : World)
    → 10 ^ 12 ≤ n
    → HasBook w
    → (process_order n incoming w).0 ≢ ok out_of_fuel
process_order_done n incoming w enough book =
    elim (Option-cases (find_row (has_id incoming.id) w.db.orders)) [
      | inl absent ↦ process_order_absent n incoming w (omega (arith, enough)) absent
      | inr (current, found) ↦
          let whole =
            book.whole current (find_row-mem (has_id incoming.id) w.db.orders current found) in
          let fits = whole.stored.quantity_fits in
          process_order_ends n incoming current w book found (omega (arith, enough, fits))
    ]

-- The rest of the queue is gone through, and a book is left.
abbrev Ends : M Progress → Type 0
Ends m = (w : World) → HasBook w → ((m w).0 ≡ ok finished) × HasBook (m w).1

after_order-Ends :
    (rest : M Progress) (r : Result Error Progress) (w : World)
    → r ≢ ok out_of_fuel
    → HasBook w
    → Ends rest
    → ((after_order rest r w).0 ≡ ok finished) × HasBook (after_order rest r w).1
after_order-Ends rest (ok out_of_fuel) w done book ends = absurd (done refl)
after_order-Ends rest (ok finished) w done book ends = ends w book
after_order-Ends rest (err e) w done book ends = ends w book

-- On a book of whole orders the engine gets through every queue, whatever orders it holds and whichever
-- statements fail, with 10^12 rounds for each order, and the orders are a book of whole orders again.
pub run-IsBook :
    (n : ℕ) (queue : List Order) (w : World)
    → 10 ^ 12 ≤ n
    → IsBook w.db.orders
    → ((run n queue w).0 ≡ ok finished) × IsBook (run n queue w).1.db.orders
unfolding run ◌>>=◌
run-IsBook n [] w enough book = (refl, book)
run-IsBook n (o ∷ os) w enough book =
    after_order-Ends (run n os) (process_order n o w).0 (process_order n o w).1
      (process_order_done n o w enough book) (process_order-book n o w book)
      (λ v later. run-IsBook n os v enough later)
