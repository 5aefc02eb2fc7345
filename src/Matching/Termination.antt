-- ===== src/Matching/Termination.antt =====
-- engine.go: for whole orders the loop of processOrder ends.
use mathlib.Core.List.{Memᴰ}
use multi_trade_platform.Base.{
  ℕ, zero, suc, ◌+◌, ◌*◌, ◌^◌, ◌≤◌, ◌<◌, ◌≡◌, ◌≢◌, refl, subst, arith, true, Option, none, some, ok,
  find_row, find_row-holds, Bool-cases, inl, inr, ◌&&◌,
}
use multi_trade_platform.Store.{World, M, Order, Trade}
use multi_trade_platform.Store.Laws.{>>=-step}
use multi_trade_platform.Order.Repository.{has_id, is_open, remaining_quantity}
use multi_trade_platform.Matching.Matcher.{must_parse_big, find_best_candidate}
use multi_trade_platform.Matching.Executor.{is_positive}
use multi_trade_platform.Matching.Choice.{find_row-mem}
use multi_trade_platform.Matching.Book.{IsBook}
use multi_trade_platform.Matching.Engine.{
  Progress, out_of_fuel, opposite, process_order, match_round, match_current, with_candidate,
  after_trade, is_filled,
}
use multi_trade_platform.Matching.Progress.{
  get_by_id-ok, Counterpart, find_best_candidate-Counterpart, find_best_candidate-db, trade_round,
  Progressed,
}

-- The rounds after a round find the order of the book with less left.
record Resumes (again : M Progress) (incoming current : Order) (w' : World) : Type 0 where
  pub world : World
  pub order : Order
  pub book : IsBook world.db.orders
  pub found : find_row (has_id incoming.id) world.db.orders ≡ some order
  pub less : remaining_quantity order + 10 ^ 8 ≤ remaining_quantity current
  pub ran : again world ≡ (ok out_of_fuel, w')

after_trade-Resumes :
    (again : M Progress) (incoming current : Order) (t : Trade) (w w' : World)
    → IsBook w.db.orders
    → current.id ≡ incoming.id
    → Progressed current w.db.orders
    → after_trade again incoming (some t) w ≡ (ok out_of_fuel, w')
    → Resumes again incoming current w'
unfolding after_trade
after_trade-Resumes again incoming current t w w' book id_eq (order, found, less) e =
    >>=-step _ _ e λ fresh w₁ e₁ k₁.
      let (found₁, same) = get_by_id-ok incoming.id w fresh w₁ e₁ in
      elim (Bool-cases (is_filled fresh.status)) [
        | inl done ↦ absurd (ground arith)
        | inr going ↦
            let here : find_row (has_id incoming.id) w.db.orders ≡ some order =
              subst (λ k. find_row (has_id k) w.db.orders ≡ some order) id_eq found in
            record {
              world = w₁;
              order = order;
              book = rw same book;
              found = rw same here;
              less = less;
              ran = ground arith;
            }
      ]

with_candidate-Resumes :
    (again : M Progress) (incoming current : Order) (r : Option Order) (w w' : World)
    → IsBook w.db.orders
    → current.id ≡ incoming.id
    → Memᴰ current w.db.orders
    → is_open current.status ≡ true
    → ((c : Order) → r ≡ some c → Counterpart current c w.db.orders)
    → with_candidate again incoming current r w ≡ (ok out_of_fuel, w')
    → Resumes again incoming current w'
unfolding with_candidate
with_candidate-Resumes again incoming current none w w' book id_eq there is_open_now other e =
    absurd (ground arith)
with_candidate-Resumes again incoming current (some c) w w' book id_eq there is_open_now other e =
    >>=-step _ _ e λ o w₁ e₁ k₁.
      let (t, some_t, book₁, on) =
        trade_round current c w o w₁ book there is_open_now (other c refl) e₁ in
      after_trade-Resumes again incoming current t w₁ w' book₁ id_eq on (
        subst (λ (x : Option Trade). after_trade again incoming x w₁ ≡ (ok out_of_fuel, w')) some_t
          k₁)

match_current-Resumes :
    (again : M Progress) (incoming current : Order) (w w' : World)
    → IsBook w.db.orders
    → current.id ≡ incoming.id
    → Memᴰ current w.db.orders
    → is_open current.status ≡ true
    → match_current again incoming current w ≡ (ok out_of_fuel, w')
    → Resumes again incoming current w'
unfolding match_current
match_current-Resumes again incoming current w w' book id_eq there is_open_now e =
    >>=-step _ _ e λ r w₁ e₁ k₁.
      let same = find_best_candidate-db _ _ current w r w₁ e₁ in
      with_candidate-Resumes again incoming current r w₁ w' (rw same book) id_eq (rw same there)
        is_open_now
        (λ c is_c. rw same (
          find_best_candidate-Counterpart _ _ current w c w₁ (
            subst
              (λ (x : Option Order).
                find_best_candidate incoming.asset_id (opposite incoming.side) current w
                ≡ (ok x, w₁))
              is_c e₁)))
        k₁

match_round-Resumes :
    (again : M Progress) (incoming current : Order) (w w' : World)
    → IsBook w.db.orders
    → find_row (has_id incoming.id) w.db.orders ≡ some current
    → match_round again incoming w ≡ (ok out_of_fuel, w')
    → Resumes again incoming current w'
unfolding match_round
match_round-Resumes again incoming current w w' book found e =
    let at_id = find_row-holds (has_id incoming.id) w.db.orders current found in
    let id_eq : current.id ≡ incoming.id = ground arith in
    let there = find_row-mem (has_id incoming.id) w.db.orders current found in
    >>=-step _ _ e λ read w₁ e₁ k₁.
      let (found₁, same) = get_by_id-ok incoming.id w read w₁ e₁ in
      let is_current : read ≡ current = ground arith in
      let left = is_positive (must_parse_big (remaining_quantity read)) in
      elim (Bool-cases (is_open read.status && left)) [
        | inr done ↦ absurd (ground arith)
        | inl going ↦
            let is_open_now : is_open current.status ≡ true = ground arith in
            let ran : match_current again incoming read w₁ ≡ (ok out_of_fuel, w') = ground arith in
            match_current-Resumes again incoming current w₁ w' (rw same book) id_eq (rw same there)
              is_open_now
              (subst (λ (x : Order). match_current again incoming x w₁ ≡ (ok out_of_fuel, w'))
                is_current ran)
      ]

rounds_end :
    (n : ℕ) (incoming current : Order) (w w' : World)
    → IsBook w.db.orders
    → find_row (has_id incoming.id) w.db.orders ≡ some current
    → remaining_quantity current < n * 10 ^ 8
    → process_order n incoming w ≢ (ok out_of_fuel, w')
unfolding process_order
rounds_end zero incoming current w w' book found enough e = absurd (omega arith)
rounds_end (suc n) incoming current w w' book found enough e =
    let next = match_round-Resumes (process_order n incoming) incoming current w w' book found e in
    let less = next.less in
    rounds_end n incoming next.order next.world w' next.book next.found (omega arith) next.ran

-- In a book of whole orders (prices and quantities fit their columns, quantities and filled
-- quantities are multiples of 10^8 units, no order is filled beyond its quantity or open with
-- nothing left, ids are unique) that has the row of the incoming order, processOrder ends, by
-- itself or in an error, in no more rounds than that order has left of the asset and one,
-- whichever statements fail.
pub process_order_ends :
    (n : ℕ) (incoming current : Order) (w : World)
    → IsBook w.db.orders
    → find_row (has_id incoming.id) w.db.orders ≡ some current
    → remaining_quantity current < n * 10 ^ 8
    → (process_order n incoming w).0 ≢ ok out_of_fuel
process_order_ends n incoming current w book found enough e =
    rounds_end n incoming current w (process_order n incoming w).1 book found enough (ground arith)
