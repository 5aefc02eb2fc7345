-- ===== src/Matching/Fills.antt =====
-- What a trade does to the orders, whatever the wallets and holdings hold.
use multi_trade_platform.Base.{
  ℕ, ◌+◌, ◌≤◌, ◌<◌, ◌≡◌, ◌≢◌, refl, sym, ap, ◌∙◌, arith, Bool, true, false, List, [], ◌∷◌, Option,
  none, some, Result, ok, err, find_row, find_row-update_rows,
}
use multi_trade_platform.Decimal.BigFloat.{Float}
use multi_trade_platform.Store.{
  World, Db, Error, M, Order, Trade, numeric_limit, statement, rollback,
}
use multi_trade_platform.Store.Laws.{served, rest, >>=-step, >>-step}
use multi_trade_platform.Store.Keeping.{KeepsOrders, KeepsOrders-orders}
use multi_trade_platform.Order.Repository.{has_id, add_fill}
use multi_trade_platform.Matching.Matcher.{must_parse_big}
use multi_trade_platform.Matching.Executor.{
  execute_trade, trade_tx, finish, settle, settle_if, buy_order_id, sell_order_id,
}
use multi_trade_platform.Matching.Executor.Steps.{status_after, fill_order-ok}
use multi_trade_platform.Matching.Executor.Keeping.{
  insert-KeepsOrders, debit_buyer-KeepsOrders, credit_seller-KeepsOrders,
  upsert_buyer_holding-KeepsOrders, reduce_seller_holding-KeepsOrders,
}
use multi_trade_platform.Matching.Numbers.{IsStored, tradable, can_trade, fill_quantity_lem}
use multi_trade_platform.Matching.Laws.{
  trade_body, lock_orders-ok, tradable_fits, execute_trade-ok, commit-none,
}

-- Both orders are filled by q units, within their quantities, and get the statuses that the engine computes.
pub record Fills (b s : Order) (q : ℕ) (before after : List Order) : Type 0 where
  pub buy_within : b.filled_quantity + q ≤ b.quantity
  pub sell_within : s.filled_quantity + q ≤ s.quantity
  pub rows : after ≡ add_fill s.id q (status_after s q) (add_fill b.id q (status_after b q) before)

kept :
    {A : Type 0} (m : M A) (w : World) (r : Result Error A) (w' : World)
    → KeepsOrders m
    → m w ≡ (r, w')
    → w'.db.orders ≡ w.db.orders
kept m w r w' keeps e = ap (λ z. z.1.db.orders) (sym e) ∙ KeepsOrders-orders m keeps w

module _ (b s : Order) (q : ℕ) (q_fits : q < numeric_limit) (differ : b.id ≢ s.id) where
  settle-Fills :
      (price : Float) (w : World) (t : Trade) (w' : World)
      → find_row (has_id b.id) w.db.orders ≡ some b
      → find_row (has_id s.id) w.db.orders ≡ some s
      → settle b s price (must_parse_big q) w ≡ (ok t, w')
      → Fills b s q w.db.orders w'.db.orders
  unfolding settle
  settle-Fills price w t w' b_found s_found e = >>=-step _ _ e λ t' w₁ e₁ k₁.
      let o₁ = kept _ w _ w₁ (insert-KeepsOrders b s _ _) e₁ in
      >>-step _ _ k₁ λ u₂ w₂ e₂ k₂.
        let (buy_within, db₂) = fill_order-ok b q w₁ u₂ w₂ q_fits (rw o₁ b_found) e₂ in
        let o₂ = ap (λ (d : Db). d.orders) db₂ in
        >>-step _ _ k₂ λ u₃ w₃ e₃ k₃.
          let s_still =
            find_row-update_rows (has_id s.id) (has_id b.id) _ w.db.orders s (λ o. refl)
              (ground arith) s_found in
          let (sell_within, db₃) = fill_order-ok s q w₂ u₃ w₃ q_fits (rw (o₂, o₁) s_still) e₃ in
          let o₃ = ap (λ (d : Db). d.orders) db₃ in
          >>-step _ _ k₃ λ u₄ w₄ e₄ k₄.
            let o₄ = kept _ w₃ _ w₄ (debit_buyer-KeepsOrders b _) e₄ in
            >>-step _ _ k₄ λ u₅ w₅ e₅ k₅.
              let o₅ = kept _ w₄ _ w₅ (credit_seller-KeepsOrders s _) e₅ in
              >>-step _ _ k₅ λ u₆ w₆ e₆ k₆.
                let o₆ = kept _ w₅ _ w₆ (upsert_buyer_holding-KeepsOrders _ _ _ _) e₆ in
                >>-step _ _ k₆ λ u₇ w₇ e₇ k₇.
                  let o₇ = kept _ w₆ _ w₇ (reduce_seller_holding-KeepsOrders _ _ _) e₇ in
                  let last : w'.db.orders ≡ w₇.db.orders = ground arith in
                  record {
                    buy_within = buy_within;
                    sell_within = sell_within;
                    rows = rw (last, o₇, o₆, o₅, o₄, o₃, o₂, o₁) refl;
                  }

-- What the transaction returns for orders that can trade.
trade_tx-Fills :
    (b s : Order) (p : ℕ) (w : World) (o : Option Trade) (w' : World)
    → IsStored b
    → IsStored s
    → b.id ≢ s.id
    → find_row (has_id b.id) w.db.orders ≡ some b
    → find_row (has_id s.id) w.db.orders ≡ some s
    → can_trade b s ≡ true
    → trade_tx b.id s.id (must_parse_big p) w ≡ (ok o, w')
    → (t : Trade) × (o ≡ some t) × Fills b s (tradable b s) w.db.orders w'.db.orders
unfolding trade_tx settle_if
trade_tx-Fills b s p w o w' b_stored s_stored differ b_found s_found able e =
    >>=-step _ _ e λ bs w₁ e₁ k₁.
      let (found, same) = lock_orders-ok b s w bs w₁ b_found s_found differ e₁ in
      let qty = fill_quantity_lem b s b_stored s_stored in
      let run : settle_if b s (must_parse_big p) (some (must_parse_big (tradable b s))) w₁
          ≡ (ok o, w') =
        ground arith in
      >>=-step _ _ run λ t w₂ e₂ k₂.
        let fills =
          settle-Fills b s (tradable b s) (tradable_fits b s b_stored s_stored) differ _ w₁ t w₂
            (rw same b_found) (rw same s_found) e₂ in
        let last : w'.db ≡ w₂.db = ground arith in (t, ground arith, rw (last, ← same) fills)

finish-none :
    (before : Db) (r : Result Error (Option Trade)) (w w' : World)
    → finish before r w ≡ (ok none, w')
    → r ≡ ok none
unfolding finish rollback
finish-none before (err e) w w' h = absurd (ground arith)
finish-none before (ok none) w w' h = refl
finish-none before (ok (some a)) w w' h =
    absurd (commit-none before a w w.faults refl (ground arith))

body-none :
    (incoming candidate : Order) (w : World) (fs : List Bool) (w' : World)
    → w.faults ≡ fs
    → execute_trade incoming candidate w ≡ (ok none, w')
    → (trade_body incoming candidate (record w { faults = rest fs })).0 ≡ ok none
unfolding execute_trade statement
body-none incoming candidate w [] w' h e =
    let done = trade_body incoming candidate (record w { faults = [] }) in
    finish-none w.db done.0 done.1 w' (ground arith)
body-none incoming candidate w (true ∷ fs) w' h e = absurd (ground arith)
body-none incoming candidate w (false ∷ fs) w' h e =
    let done = trade_body incoming candidate (record w { faults = fs }) in
    finish-none w.db done.0 done.1 w' (ground arith)

-- executeTrade without an error, for two orders that can trade, has traded all that both have left.
pub execute_trade-Fills :
    (incoming candidate b s : Order) (w : World) (o : Option Trade) (w' : World)
    → buy_order_id incoming candidate ≡ b.id
    → sell_order_id incoming candidate ≡ s.id
    → IsStored b
    → IsStored s
    → b.id ≢ s.id
    → find_row (has_id b.id) w.db.orders ≡ some b
    → find_row (has_id s.id) w.db.orders ≡ some s
    → can_trade b s ≡ true
    → execute_trade incoming candidate w ≡ (ok o, w')
    → (t : Trade) × (o ≡ some t) × Fills b s (tradable b s) w.db.orders w'.db.orders
execute_trade-Fills incoming candidate b s w none w' buying selling b_stored s_stored differ b_found
      s_found able e =
    let nothing = body-none incoming candidate w w.faults w' refl e in
    let w₂ = (trade_body incoming candidate (served w)).1 in
    let body : trade_tx b.id s.id (must_parse_big candidate.price) (served w) ≡ (ok none, w₂) =
      rw (← buying, ← selling) (ground arith) in
    let (t, is_some, fills) =
      trade_tx-Fills b s candidate.price (served w) none w₂ b_stored s_stored differ b_found s_found
        able body in
    absurd (ground arith)
execute_trade-Fills incoming candidate b s w (some t) w' buying selling b_stored s_stored differ
      b_found s_found able e =
    let (run, same) = execute_trade-ok incoming candidate w t w' e in
    let w₂ = (trade_body incoming candidate (served w)).1 in
    let body : trade_tx b.id s.id (must_parse_big candidate.price) (served w) ≡ (ok (some t), w₂) =
      rw (← buying, ← selling) run in
    let (u, is_some, fills) =
      trade_tx-Fills b s candidate.price (served w) (some t) w₂ b_stored s_stored differ b_found
        s_found able body in
    (t, refl, rw same fills)
