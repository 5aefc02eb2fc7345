-- ===== src/Matching/Rounds.antt =====
-- engine.go: rounds in which nothing is traded.
use multi_trade_platform.Base.{
  ℕ, zero, suc, ◌≡◌, ◌≢◌, ◌<◌, refl, ◌∙◌, arith, true, false, [], none, some, ok, find_row,
}
use multi_trade_platform.Decimal.BigFloat.{Float}
use multi_trade_platform.Store.{M, World, statement, ◌>>=◌, Order}
use multi_trade_platform.Order.Repository.{
  has_id, get_by_id, get_by_id_for_update, is_open, remaining_quantity,
}
use multi_trade_platform.Matching.Matcher.{must_parse_big, find_best_candidate}
use multi_trade_platform.Matching.Executor.{
  execute_trade, trade_tx, lock_orders, settle_if, fill_quantity, finish, buy_order_id,
  sell_order_id,
}
use multi_trade_platform.Matching.Numbers.{
  IsStored, can_trade, fill_quantity_lem, is_positive-column,
}
use multi_trade_platform.Matching.Engine.{
  Progress, out_of_fuel, opposite, process_order, match_round, match_current, with_candidate,
  after_trade,
}

locked :
    (id : ℕ) (w : World) (o : Order)
    → w.faults ≡ []
    → find_row (has_id id) w.db.orders ≡ some o
    → get_by_id_for_update id w ≡ (ok o, w)
unfolding get_by_id_for_update statement ◌>>=◌
locked id w o quiet found = ground arith

read :
    (id : ℕ) (w : World) (o : Order)
    → w.faults ≡ []
    → find_row (has_id id) w.db.orders ≡ some o
    → get_by_id id w ≡ (ok o, w)
unfolding get_by_id statement ◌>>=◌
read id w o quiet found = ground arith

both_locked :
    (b s : Order) (w : World)
    → w.faults ≡ []
    → find_row (has_id b.id) w.db.orders ≡ some b
    → find_row (has_id s.id) w.db.orders ≡ some s
    → b.id ≢ s.id
    → lock_orders b.id s.id w ≡ (ok (b, s), w)
unfolding lock_orders ◌>>=◌
both_locked b s w quiet buying selling differ =
    let first = locked b.id w b quiet buying in
    let second = locked s.id w s quiet selling in ground arith

trade_tx_unmatched :
    (b s : Order) (price : Float) (w : World)
    → lock_orders b.id s.id w ≡ (ok (b, s), w)
    → fill_quantity b s ≡ none
    → trade_tx b.id s.id price w ≡ (ok none, w)
unfolding trade_tx settle_if ◌>>=◌
trade_tx_unmatched b s price w lock nothing = ground arith

-- A transaction on two orders that cannot trade is rolled back and reports nothing.
execute_trade_idle :
    (incoming candidate b s : Order) (w : World)
    → w.faults ≡ []
    → buy_order_id incoming candidate ≡ b.id
    → sell_order_id incoming candidate ≡ s.id
    → find_row (has_id b.id) w.db.orders ≡ some b
    → find_row (has_id s.id) w.db.orders ≡ some s
    → b.id ≢ s.id
    → IsStored b
    → IsStored s
    → can_trade b s ≡ false
    → execute_trade incoming candidate w ≡ (ok none, w)
unfolding execute_trade finish statement
execute_trade_idle incoming candidate b s w quiet buy sell buying selling differ b_stored s_stored
      stuck =
    let lock = both_locked b s w quiet buying selling differ in
    let nothing : fill_quantity b s ≡ none =
      fill_quantity_lem b s b_stored s_stored ∙ rw stuck refl in
    let tx = trade_tx_unmatched b s (must_parse_big candidate.price) w lock nothing in ground arith

-- One round after which everything is as before.
idle_round :
    (again : M Progress) (incoming current candidate : Order) (w : World)
    → get_by_id incoming.id w ≡ (ok current, w)
    → is_open current.status ≡ true
    → 0 < remaining_quantity current
    → find_best_candidate incoming.asset_id (opposite incoming.side) current w
      ≡ (ok (some candidate), w)
    → execute_trade current candidate w ≡ (ok none, w)
    → match_round again incoming w ≡ again w
unfolding match_round match_current with_candidate after_trade ◌>>=◌
idle_round again incoming current candidate w found is_open_now left chosen nothing =
    let positive = is_positive-column (remaining_quantity current) in ground arith

-- An open order with something left, whose best candidate is one that it cannot trade with (an order
-- that is open with nothing left), is matched round after round and nothing changes: no number of
-- rounds is enough. The two orders' amounts fit their columns, and no statement fails.
pub process_order_endless :
    (n : ℕ) (incoming current candidate b s : Order) (w : World)
    → w.faults ≡ []
    → find_row (has_id incoming.id) w.db.orders ≡ some current
    → is_open current.status ≡ true
    → 0 < remaining_quantity current
    → find_best_candidate incoming.asset_id (opposite incoming.side) current w
      ≡ (ok (some candidate), w)
    → buy_order_id current candidate ≡ b.id
    → sell_order_id current candidate ≡ s.id
    → find_row (has_id b.id) w.db.orders ≡ some b
    → find_row (has_id s.id) w.db.orders ≡ some s
    → b.id ≢ s.id
    → IsStored b
    → IsStored s
    → can_trade b s ≡ false
    → process_order n incoming w ≡ (ok out_of_fuel, w)
unfolding process_order
process_order_endless zero incoming current candidate b s w quiet found is_open_now left chosen buy
      sell buying selling differ b_stored s_stored stuck =
    refl
process_order_endless (suc n) incoming current candidate b s w quiet found is_open_now left chosen
      buy sell buying selling differ b_stored s_stored stuck =
    let nothing =
      execute_trade_idle current candidate b s w quiet buy sell buying selling differ b_stored
        s_stored stuck in
    idle_round (process_order n incoming) incoming current candidate w
      (read incoming.id w current quiet found) is_open_now left chosen nothing
    ∙ process_order_endless n incoming current candidate b s w quiet found is_open_now left chosen
        buy sell buying selling differ b_stored s_stored stuck
