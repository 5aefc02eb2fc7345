-- ===== src/Http/LowIds.antt =====
-- parseIDParam and its callers: a number below 1 in the path of an order.
use multi_trade_platform.Base.{
  ℕ, zero, suc, ◌≡◌, arith, Bool, true, false, List, [], ◌∷◌, none, some, err, find_row,
}
use multi_trade_platform.Base.Int.{ℤ, pos, negsuc}
use multi_trade_platform.Store.{World, Error, statement, run_tx, ◌>>=◌, ◌>>◌}
use multi_trade_platform.Order.Repository.{has_id, get_by_id, get_by_id_for_update}
use multi_trade_platform.Order.Service.{cancel_order, cancel_tx, get_order}
use multi_trade_platform.Http.{Reply, refuse, parse_id_param}
use multi_trade_platform.Http.Orders.{cancel_order_handler, get_order_handler}

-- The integers below 1.
abbrev pub is_low : ℤ → Bool
is_low (negsuc n) = true
is_low (pos zero) = true
is_low (pos (suc n)) = false

abbrev pub refused_twice : List Reply
refused_twice = refuse 400 "invalid id" ∷ refuse 404 "order not found" ∷ []

module _ (user : ℕ) (w : World) where
  cancel_missing :
      w.faults ≡ []
      → find_row (has_id 0) w.db.orders ≡ none
      → cancel_order user 0 w ≡ (err Error.order_not_found, w)
  unfolding cancel_order cancel_tx run_tx statement get_by_id_for_update ◌>>=◌ ◌>>◌
  cancel_missing served missing = ground arith

  get_missing :
      w.faults ≡ []
      → find_row (has_id 0) w.db.orders ≡ none
      → get_order user 0 w ≡ (err Error.order_not_found, w)
  unfolding get_order get_by_id statement ◌>>=◌ ◌>>◌
  get_missing served missing = ground arith

-- A request of a signed-in user to cancel or to read the order of a number below 1, where no order is
-- numbered 0 and no statement fails, is refused twice: with "invalid id" and 400, and then, since the
-- handlers go on with 0, with "order not found" and 404. Nothing changes.
pub order_handlers_low :
    (user : ℕ) (id : ℤ) (w : World)
    → is_low id ≡ true
    → w.faults ≡ []
    → find_row (has_id 0) w.db.orders ≡ none
    → (cancel_order_handler (some user) (some id) w ≡ (refused_twice, w))
      × (get_order_handler (some user) (some id) w ≡ (refused_twice, w))
unfolding cancel_order_handler get_order_handler parse_id_param
order_handlers_low user (negsuc n) w low served missing =
    let cancelled = cancel_missing user w served missing in
    let read = get_missing user w served missing in (ground arith, ground arith)
order_handlers_low user (pos zero) w low served missing =
    let cancelled = cancel_missing user w served missing in
    let read = get_missing user w served missing in (ground arith, ground arith)
order_handlers_low user (pos (suc n)) w low served missing = absurd (ground arith)
