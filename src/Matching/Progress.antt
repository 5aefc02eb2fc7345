-- ===== src/Matching/Progress.antt =====
-- One trade between two whole orders of the book, as the engine's loop makes it.
use mathlib.Core.List.{Memᴰ}
use multi_trade_platform.Base.{
  ℕ, ◌+◌, ◌-◌, ◌^◌, ◌≤◌, ◌<◌, ◌≡◌, ◌≢◌, refl, sym, ap, ◌∙◌, subst, arith, true, List, Option, some,
  ok, find_row, find_row-holds, select, Bool-cases, inl, inr, ◌⊎◌, leb,
}
use multi_trade_platform.Store.{World, Order, Side, buy, sell, Trade, ◌>>=◌}
use multi_trade_platform.Store.Laws.{statement-ok, >>=-step}
use multi_trade_platform.Order.Repository.{
  has_id, add_fill, get_by_id, get_open_orders_for_matching, is_open, remaining_quantity,
  is_candidate,
}
use multi_trade_platform.Matching.Matcher.{find_best_candidate, crosses}
use multi_trade_platform.Matching.Executor.{execute_trade, buy_order_id, sell_order_id}
use multi_trade_platform.Matching.Executor.Steps.{status_after}
use multi_trade_platform.Matching.Priority.{is_eligible, mem-sort_rows}
use multi_trade_platform.Matching.Choice.{mem-select, find_best_candidate-ok, find_row-mem}
use multi_trade_platform.Matching.Numbers.{tradable, can_trade, prices_cross, crosses-columns}
use multi_trade_platform.Matching.Fills.{Fills, execute_trade-Fills}
use multi_trade_platform.Matching.Book.{
  Whole, IsWhole, IsBook, filled_by, add_fill-IsBook, find_row-add_fill, find_row-add_fill_other,
}

pub get_by_id-ok :
    (id : ℕ) (w : World) (o : Order) (w' : World)
    → get_by_id id w ≡ (ok o, w')
    → (find_row (has_id id) w.db.orders ≡ some o) × (w'.db ≡ w.db)
unfolding get_by_id ◌>>=◌
get_by_id-ok id w o w' e = let done = statement-ok _ w o w' e in ground arith

remaining_quantity-Whole : (o : Order) → IsWhole o → Whole (remaining_quantity o)
remaining_quantity-Whole o whole =
    let (k, k_eq) = whole.quantity_whole in
    let (m, m_eq) = whole.filled_whole in (k - m, omega arith)

-- Whole orders are traded for a whole quantity.
tradable-Whole : (b s : Order) → IsWhole b → IsWhole s → Whole (tradable b s)
tradable-Whole b s b_whole s_whole =
    elim (Bool-cases (leb (remaining_quantity b) (remaining_quantity s))) [
      | inl h ↦ rw h (remaining_quantity-Whole b b_whole)
      | inr h ↦ rw h (remaining_quantity-Whole s s_whole)
    ]

-- The order is still there, with at least one of the asset less left.
abbrev pub Progressed : Order → List Order → Type 0
Progressed o after =
    (o' : Order) × (find_row (has_id o.id) after ≡ some o')
    × (remaining_quantity o' + 10 ^ 8 ≤ remaining_quantity o)

filled_less :
    (o : Order) (q : ℕ)
    → 10 ^ 8 ≤ q
    → o.filled_quantity + q ≤ o.quantity
    → o.quantity - (o.filled_quantity + q) + 10 ^ 8 ≤ remaining_quantity o
filled_less o q pos le = omega arith

Fills-Progressed :
    (b s : Order) (q : ℕ) (before after : List Order)
    → IsBook before
    → b.id ≢ s.id
    → find_row (has_id b.id) before ≡ some b
    → find_row (has_id s.id) before ≡ some s
    → 10 ^ 8 ≤ q
    → Whole q
    → Fills b s q before after
    → IsBook after × Progressed b after × Progressed s after
Fills-Progressed b s q before after book differ b_found s_found pos q_whole fills =
    let mid = add_fill b.id q (status_after b q) before in
    let b' = filled_by q (status_after b q) b in
    let s' = filled_by q (status_after s q) s in
    let book₁ = add_fill-IsBook b q before book b_found q_whole fills.buy_within in
    let s_mid = find_row-add_fill_other s b q (status_after b q) before differ s_found in
    let b_mid = find_row-add_fill b q (status_after b q) before b_found in
    let book₂ = add_fill-IsBook s q mid book₁ s_mid q_whole fills.sell_within in
    let s_last = find_row-add_fill s q (status_after s q) mid s_mid in
    let b_last =
      find_row-add_fill_other b' s q (status_after s q) mid (λ e. differ (sym e)) b_mid in
    (
      subst IsBook (sym fills.rows) book₂,
      (
        b',
        subst (λ (os : List Order). find_row (has_id b.id) os ≡ some b') (sym fills.rows) b_last,
        filled_less b q pos fills.buy_within,
      ),
      (
        s',
        subst (λ (os : List Order). find_row (has_id s.id) os ≡ some s') (sym fills.rows) s_last,
        filled_less s q pos fills.sell_within,
      ),
    )

-- The counterpart of an order of the book, as the engine finds it.
pub record Counterpart (current candidate : Order) (os : List Order) : Type 0 where
  pub there : Memᴰ candidate os
  pub is_open_now : is_open candidate.status ≡ true
  pub eligible : is_eligible current candidate ≡ true

pub find_best_candidate-Counterpart :
    (asset_id : ℕ) (side : Side) (current : Order) (w : World) (c : Order) (w' : World)
    → find_best_candidate asset_id side current w ≡ (ok (some c), w')
    → Counterpart current c w.db.orders
find_best_candidate-Counterpart asset_id side current w c w' e =
    let chosen = select (is_candidate asset_id side) w.db.orders in
    let found = find_best_candidate-ok asset_id side current w (some c) w' e in
    let (stored, candidate) =
      mem-select (is_candidate asset_id side) c w.db.orders
        (mem-sort_rows side c chosen (find_row-mem (is_eligible current) _ c found)) in
    record {
      there = stored;
      is_open_now = ground arith;
      eligible = find_row-holds (is_eligible current) _ c found;
    }

open_orders-db :
    (asset_id : ℕ) (side : Side) (w : World) (rows : List Order) (w' : World)
    → get_open_orders_for_matching asset_id side w ≡ (ok rows, w')
    → w'.db ≡ w.db
unfolding get_open_orders_for_matching ◌>>=◌
open_orders-db asset_id side w rows w' e = let done = statement-ok _ w rows w' e in ground arith

pub find_best_candidate-db :
    (asset_id : ℕ) (side : Side) (current : Order) (w : World) (r : Option Order) (w' : World)
    → find_best_candidate asset_id side current w ≡ (ok r, w')
    → w'.db ≡ w.db
unfolding find_best_candidate
find_best_candidate-db asset_id side current w r w' e = >>=-step _ _ e λ rows w₁ e₁ k₁.
    let same = open_orders-db asset_id side w rows w₁ e₁ in
    let last : w' ≡ w₁ = ground arith in ap (λ (v : World). v.db) last ∙ same

Side-cases : (side : Side) → (side ≡ buy) ⊎ (side ≡ sell)
Side-cases buy = inl refl
Side-cases sell = inr refl

-- A trade of two open orders of the book at prices that cross.
pair_round :
    (incoming c b s : Order) (w : World) (o : Option Trade) (w' : World)
    → buy_order_id incoming c ≡ b.id
    → sell_order_id incoming c ≡ s.id
    → IsBook w.db.orders
    → Memᴰ b w.db.orders
    → Memᴰ s w.db.orders
    → b.id ≢ s.id
    → is_open b.status ≡ true
    → is_open s.status ≡ true
    → leb s.price b.price ≡ true
    → execute_trade incoming c w ≡ (ok o, w')
    → (t : Trade) × (o ≡ some t)
      × IsBook w'.db.orders
      × Progressed b w'.db.orders
      × Progressed s w'.db.orders
pair_round incoming c b s w o w' buying selling book b_there s_there differ b_open s_open crossing
      e =
    let b_whole = book.whole b b_there in
    let s_whole = book.whole s s_there in
    let b_left = b_whole.left b_open in
    let s_left = s_whole.left s_open in
    let pos : 0 < tradable b s = ground arith in
    let able : can_trade b s ≡ true = ground arith in
    let (t, some_t, fills) =
      execute_trade-Fills incoming c b s w o w' buying selling b_whole.stored s_whole.stored differ
        (book.unique b b_there) (book.unique s s_there) able e in
    let (c₁, q_eq) = tradable-Whole b s b_whole s_whole in
    let (book', b_on, s_on) =
      Fills-Progressed b s (tradable b s) w.db.orders w'.db.orders book differ
        (book.unique b b_there) (book.unique s s_there) (omega arith) (c₁, q_eq) fills in
    (t, some_t, book', b_on, s_on)

Counterpart-differ :
    (current c : Order) (os : List Order)
    → IsBook os
    → Memᴰ current os
    → Counterpart current c os
    → current.id ≢ c.id
Counterpart-differ current c os book there other same =
    let eligible = other.eligible in
    let at_c = book.unique c other.there in
    let at_current : find_row (has_id c.id) os ≡ some current =
      subst (λ k. find_row (has_id k) os ≡ some current) same (book.unique current there) in
    let row : current ≡ c = ground arith in
    let users : c.user_id ≡ current.user_id = ap (λ (o : Order). o.user_id) (sym row) in
    ground arith

-- A round with a counterpart: something is traded, the book stays one and the order has less left.
pub trade_round :
    (current c : Order) (w : World) (o : Option Trade) (w' : World)
    → IsBook w.db.orders
    → Memᴰ current w.db.orders
    → is_open current.status ≡ true
    → Counterpart current c w.db.orders
    → execute_trade current c w ≡ (ok o, w')
    → (t : Trade) × (o ≡ some t) × IsBook w'.db.orders × Progressed current w'.db.orders
trade_round current c w o w' book there is_open_now other e =
    let eligible = other.eligible in
    let c_open = other.is_open_now in
    let differ = Counterpart-differ current c w.db.orders book there other in
    let own = (book.whole current there).stored in
    let its = (book.whole c other.there).stored in
    let columns =
      crosses-columns current.side current.price c.price own.price_fits its.price_fits in
    let met : crosses current.side current.price c.price ≡ true = ground arith in
    let crossing : prices_cross current.side current.price c.price ≡ true = sym columns ∙ met in
    elim (Side-cases current.side) [
      | inl is_buy ↦
          let (t, some_t, book', on, other_on) =
            pair_round current c current c w o w' (rw is_buy refl) (rw is_buy refl) book there
              other.there differ is_open_now c_open
              (subst (λ d. prices_cross d current.price c.price ≡ true) is_buy crossing) e in
          (t, some_t, book', on)
      | inr is_sell ↦
          let (t, some_t, book', other_on, on) =
            pair_round current c c current w o w' (rw is_sell refl) (rw is_sell refl) book
              other.there there (λ e. differ (sym e)) c_open is_open_now
              (subst (λ d. prices_cross d current.price c.price ≡ true) is_sell crossing) e in
          (t, some_t, book', on)
    ]
