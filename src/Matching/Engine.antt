-- ===== src/Matching/Engine.antt =====
-- engine.go: the loop that matches one order until nothing is left to do.
use multi_trade_platform.Base.{
  ℕ, zero, suc, Bool, true, false, ◌&&◌, List, [], ◌∷◌, Option, none, some, Result, ok, err,
  if◌then◌else◌,
}
use multi_trade_platform.Store.{
  M, pure, attempt, ◌>>=◌, Error, Order, Side, buy, sell, OrderStatus, filled, Trade,
}
use multi_trade_platform.Order.Repository.{get_by_id, is_open, remaining_quantity}
use multi_trade_platform.Matching.Matcher.{must_parse_big, find_best_candidate}
use multi_trade_platform.Matching.Executor.{execute_trade, is_positive}

-- Whether the loop has ended, or was cut off.
pub data Progress : Type 0 where
  finished out_of_fuel : Progress

abbrev pub opposite : Side → Side
opposite buy = sell
opposite sell = buy

abbrev pub is_filled : OrderStatus → Bool
is_filled filled = true
is_filled _ = false

-- After executeTrade: the incoming order is read again, and matched again unless it is done.
unfoldable pub after_trade : M Progress → Order → Option Trade → M Progress
after_trade again incoming none = do
  fresh ← get_by_id incoming.id
  if is_open fresh.status then again else pure finished
after_trade again incoming (some t) = do
  current ← get_by_id incoming.id
  if is_filled current.status then pure finished else again

unfoldable pub with_candidate : M Progress → Order → Order → Option Order → M Progress
unfolding after_trade
with_candidate again incoming current none = pure finished
with_candidate again incoming current (some candidate) = do
  r ← execute_trade current candidate
  after_trade again incoming r

unfoldable pub match_current : M Progress → Order → Order → M Progress
unfolding with_candidate
match_current again incoming current = do
  candidate ← find_best_candidate incoming.asset_id (opposite incoming.side) current
  with_candidate again incoming current candidate

-- One round of the loop; `again` is the rounds after it.
unfoldable pub match_round : M Progress → Order → M Progress
unfolding match_current
match_round again incoming = do
  current ← get_by_id incoming.id
  let left = is_positive (must_parse_big (remaining_quantity current))
  if is_open current.status && left then match_current again incoming current else pure finished

-- processOrder, on fuel: the source has no bound on the rounds.
unfoldable pub process_order : ℕ → Order → M Progress
unfolding match_round
process_order zero incoming = pure out_of_fuel
process_order (suc n) incoming = match_round (process_order n incoming) incoming

-- An error of processOrder is only logged.
abbrev pub after_order : M Progress → Result Error Progress → M Progress
after_order rest (ok out_of_fuel) = pure out_of_fuel
after_order rest (ok finished) = rest
after_order rest (err e) = rest

-- Run, on the orders that come from the queue until it is closed or the context is done.
unfoldable pub run : ℕ → List Order → M Progress
run n [] = pure finished
run n (o ∷ os) = do r ← attempt (process_order n o); after_order (run n os) r
