-- ===== src/Matching/Laws.antt =====
-- The engine's trades: what execute_trade has done, whichever way it ends.
use multi_trade_platform.Base.{
  ℕ, ◌*◌, ◌^◌, ◌<◌, ◌≡◌, ◌≢◌, refl, arith, Bool, true, false, List, [], ◌∷◌, Option, none, some,
  Result, ok, err, ltb, find_row, Bool-cases, inl, inr, if◌then◌else◌,
}
use multi_trade_platform.Store.{
  World, Error, M, Db, Order, Wallet, Trade, Holding, numeric_limit, statement, commit, rollback,
}
use multi_trade_platform.Store.Laws.{IsAtomic, IsAtomic-error, served, rest, >>=-step}
use multi_trade_platform.Order.Repository.{has_id}
use multi_trade_platform.Order.Repository.Effects.{get_by_id_for_update-ok}
use multi_trade_platform.Matching.Matcher.{must_parse_big}
use multi_trade_platform.Matching.Executor.{
  execute_trade, trade_tx, finish, lock_orders, settle_if, buy_order_id, sell_order_id,
}
use multi_trade_platform.Matching.Executor.Settlement.{Parties, Settles, settle-ok}
use multi_trade_platform.Matching.Numbers.{IsStored, tradable, can_trade, fill_quantity_lem}

execute_trade-IsAtomic : (incoming candidate : Order) → IsAtomic (execute_trade incoming candidate)
unfolding execute_trade finish rollback commit statement
execute_trade-IsAtomic incoming candidate w e h = ground arith

-- A trade that fails at any point, by its own checks or the database's, changes no table.
pub execute_trade_error :
    (incoming candidate : Order) (w : World) (e : Error) (w' : World)
    → execute_trade incoming candidate w ≡ (err e, w')
    → w'.db ≡ w.db
execute_trade_error incoming candidate w e w' h =
    IsAtomic-error (execute_trade incoming candidate) w e w'
      (execute_trade-IsAtomic incoming candidate) h

pub lock_orders-ok :
    (b s : Order) (w : World) (bs : Order × Order) (w' : World)
    → find_row (has_id b.id) w.db.orders ≡ some b
    → find_row (has_id s.id) w.db.orders ≡ some s
    → b.id ≢ s.id
    → lock_orders b.id s.id w ≡ (ok bs, w')
    → (bs ≡ (b, s)) × (w'.db ≡ w.db)
unfolding lock_orders
lock_orders-ok b s w bs w' b_found s_found differ e = >>=-step _ _ e λ first w₁ e₁ k₁.
    let (first_found, same₁) = get_by_id_for_update-ok _ w first w₁ e₁ in
    >>=-step _ _ k₁ λ second w₂ e₂ k₂.
      let (second_found, same₂) = get_by_id_for_update-ok _ w₁ second w₂ e₂ in
      let found₂ : find_row (has_id (if ltb s.id b.id then b.id else s.id)) w.db.orders
          ≡ some second =
        rw (← same₁) second_found in
      elim (Bool-cases (ltb s.id b.id)) [
        | inl h ↦
            let f : find_row (has_id s.id) w.db.orders ≡ some first = ground arith in
            let g : find_row (has_id b.id) w.db.orders ≡ some second = ground arith in
            let is_s : first ≡ s = ground arith in
            let is_b : second ≡ b = ground arith in (ground arith, ground arith)
        | inr h ↦
            let f : find_row (has_id b.id) w.db.orders ≡ some first = ground arith in
            let g : find_row (has_id s.id) w.db.orders ≡ some second = ground arith in
            let is_b : first ≡ b = ground arith in
            let is_s : second ≡ s = ground arith in (ground arith, ground arith)
      ]

pub tradable_fits : (b s : Order) → IsStored b → IsStored s → tradable b s < numeric_limit
tradable_fits b s b_stored s_stored = grind arith

-- The body of the transaction, for orders that can trade.
trade_tx-ok :
    (b s : Order) (x y : Wallet) (h : Holding) (p c : ℕ) (w : World) (t : Trade) (w' : World)
    → IsStored b
    → IsStored s
    → tradable b s * p ≡ c * 10 ^ 8
    → p < numeric_limit
    → c < numeric_limit
    → Parties w.db b s x y h
    → trade_tx b.id s.id (must_parse_big p) w ≡ (ok (some t), w')
    → (can_trade b s ≡ true) × Settles w.db b s x y h (tradable b s) p c t w'.db
unfolding trade_tx settle_if
trade_tx-ok b s x y h p c w t w' b_stored s_stored exact p_fits c_fits parties e =
    >>=-step _ _ e λ bs w₁ e₁ k₁.
      let (found, same) =
        lock_orders-ok b s w bs w₁ parties.buy_order parties.sell_order parties.orders_differ e₁ in
      let qty = fill_quantity_lem b s b_stored s_stored in
      elim (Bool-cases (can_trade b s)) [
        | inl able ↦
            let run : settle_if b s (must_parse_big p) (some (must_parse_big (tradable b s))) w₁
                ≡ (ok (some t), w') =
              ground arith in
            >>=-step _ _ run λ t' w₂ e₂ k₂.
              let settles =
                settle-ok b s x y h (tradable b s) p c w₁ t' w₂ exact
                  (tradable_fits b s b_stored s_stored) p_fits c_fits (rw same parties) e₂ in
              let same_t : t' ≡ t = ground arith in
              let last : w'.db ≡ w₂.db = ground arith in (able, rw (last, ← same_t, ← same) settles)
        | inr unable ↦
            let run : settle_if b s (must_parse_big p) none w₁ ≡ (ok (some t), w') = ground arith in
            absurd (ground arith)
      ]

-- The body of the transaction of execute_trade.
abbrev pub trade_body : Order → Order → M (Option Trade)
trade_body incoming candidate =
    trade_tx (buy_order_id incoming candidate) (sell_order_id incoming candidate)
      (must_parse_big candidate.price)

finish_go :
    (before : Db) (a : Trade) (w : World) (fs : List Bool) (t : Trade) (w' : World)
    → w.faults ≡ fs
    → finish before (ok (some a)) w ≡ (ok (some t), w')
    → (a ≡ t) × (w'.db ≡ w.db)
unfolding finish commit statement rollback
finish_go before a w [] t w' h e = (ground arith, ground arith)
finish_go before a w (true ∷ fs) t w' h e = absurd (ground arith)
finish_go before a w (false ∷ fs) t w' h e = (ground arith, ground arith)

finish-ok :
    (before : Db) (r : Result Error (Option Trade)) (w : World) (t : Trade) (w' : World)
    → finish before r w ≡ (ok (some t), w')
    → (r ≡ ok (some t)) × (w'.db ≡ w.db)
unfolding finish commit statement rollback
finish-ok before (err e) w t w' h = absurd (ground arith)
finish-ok before (ok none) w t w' h = absurd (ground arith)
finish-ok before (ok (some a)) w t w' h =
    let (same_t, same) = finish_go before a w w.faults t w' refl h in (rw same_t refl, same)

execute_trade_go :
    (incoming candidate : Order) (w : World) (fs : List Bool) (t : Trade) (w' : World)
    → w.faults ≡ fs
    → execute_trade incoming candidate w ≡ (ok (some t), w')
    → let w₁ = record w { faults = rest fs } in
      let body = trade_body incoming candidate in
      finish w.db (body w₁).0 (body w₁).1 ≡ (ok (some t), w')
unfolding execute_trade statement
execute_trade_go incoming candidate w [] t w' h e = ground arith
execute_trade_go incoming candidate w (true ∷ fs) t w' h e = ground arith
execute_trade_go incoming candidate w (false ∷ fs) t w' h e = ground arith

-- What a reported trade did in its transaction.
pub execute_trade-ok :
    (incoming candidate : Order) (w : World) (t : Trade) (w' : World)
    → execute_trade incoming candidate w ≡ (ok (some t), w')
    → let done = trade_body incoming candidate (served w) in
      (done ≡ (ok (some t), done.1)) × (w'.db ≡ done.1.db)
execute_trade-ok incoming candidate w t w' e =
    let done = trade_body incoming candidate (served w) in
    let (ran, same) =
      finish-ok w.db done.0 done.1 t w'
        (execute_trade_go incoming candidate w w.faults t w' refl e) in
    (ground arith, same)

-- A trade that the engine reports moved the same quantity and the same cost on both sides. The two orders
-- are open and their prices cross; the trade is for all that both have left, at the price of the order
-- that rests in the book; both orders stay within their quantities; the buyer's wallet covered the cost
-- and the seller's holding the quantity; and the tables are those with the trade, the two fills, the two
-- balances, the two wallet transactions and the two holdings, nothing else. For amounts that fit their
-- columns, a cost that is a whole number of units, and a seller who holds the asset.
pub execute_trade_effect :
    (incoming candidate b s : Order) (x y : Wallet) (h : Holding) (c : ℕ) (w : World) (t : Trade)
    (w' : World)
    → buy_order_id incoming candidate ≡ b.id
    → sell_order_id incoming candidate ≡ s.id
    → IsStored b
    → IsStored s
    → tradable b s * candidate.price ≡ c * 10 ^ 8
    → candidate.price < numeric_limit
    → c < numeric_limit
    → Parties w.db b s x y h
    → execute_trade incoming candidate w ≡ (ok (some t), w')
    → (can_trade b s ≡ true) × Settles w.db b s x y h (tradable b s) candidate.price c t w'.db
execute_trade_effect incoming candidate b s x y h c w t w' buying selling b_stored s_stored exact
      p_fits c_fits parties e =
    let (run, same) = execute_trade-ok incoming candidate w t w' e in
    let w₂ = (trade_body incoming candidate (served w)).1 in
    let body : trade_tx b.id s.id (must_parse_big candidate.price) (served w) ≡ (ok (some t), w₂) =
      rw (← buying, ← selling) run in
    let (able, settles) =
      trade_tx-ok b s x y h candidate.price c (served w) t w₂ b_stored s_stored exact p_fits c_fits
        parties body in
    (able, rw same settles)

pub commit-none :
    (before : Db) (a : Trade) (w : World) (fs : List Bool)
    → w.faults ≡ fs
    → (commit before (some a) w).0 ≢ ok none
unfolding commit statement rollback
commit-none before a w [] h e = ground arith
commit-none before a w (true ∷ fs) h e = ground arith
commit-none before a w (false ∷ fs) h e = ground arith

unmatched_go :
    (before : Db) (r : Result Error (Option Trade)) (w w' : World)
    → finish before r w ≡ (ok none, w')
    → w'.db ≡ before
unfolding finish rollback
unmatched_go before (err e) w w' h = absurd (ground arith)
unmatched_go before (ok none) w w' h = ground arith
unmatched_go before (ok (some a)) w w' h =
    absurd (commit-none before a w w.faults refl (ground arith))

execute_trade_go_none :
    (incoming candidate : Order) (w : World) (fs : List Bool) (w' : World)
    → w.faults ≡ fs
    → execute_trade incoming candidate w ≡ (ok none, w')
    → w'.db ≡ w.db
unfolding execute_trade statement
execute_trade_go_none incoming candidate w [] w' h e =
    let done = trade_body incoming candidate (record w { faults = [] }) in
    unmatched_go w.db done.0 done.1 w' (ground arith)
execute_trade_go_none incoming candidate w (true ∷ fs) w' h e = absurd (ground arith)
execute_trade_go_none incoming candidate w (false ∷ fs) w' h e =
    let done = trade_body incoming candidate (record w { faults = fs }) in
    unmatched_go w.db done.0 done.1 w' (ground arith)

-- Where the engine reports no trade and no error, no table has changed.
pub execute_trade_unmatched :
    (incoming candidate : Order) (w w' : World)
    → execute_trade incoming candidate w ≡ (ok none, w')
    → w'.db ≡ w.db
execute_trade_unmatched incoming candidate w w' e =
    execute_trade_go_none incoming candidate w w.faults w' refl e
