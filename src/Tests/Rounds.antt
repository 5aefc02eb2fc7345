-- ===== src/Tests/Rounds.antt =====
-- A book of two whole orders.
use mathlib.Core.List.{Memᴰ}
use mathlib.Core.List.Memᴰ.{not-nil, cases_cons}
use multi_trade_platform.Base.{
  ◌≡◌, ◌^◌, ◌≢◌, refl, sym, subst, arith, [], ◌∷◌, some, ok, find_row, inl, inr,
}
use multi_trade_platform.Store.{Order}
use multi_trade_platform.Order.Repository.{has_id}
use multi_trade_platform.Matching.Engine.{process_order, out_of_fuel, finished, run}
use multi_trade_platform.Matching.Book.{IsWhole, IsBook}
use multi_trade_platform.Matching.Termination.{process_order_ends}
use multi_trade_platform.Matching.Queue.{run-IsBook}
use multi_trade_platform.Tests.Data.{world, bid, ask}

bid-IsWhole : IsWhole bid
bid-IsWhole = record {
  stored = record { price_fits = omega arith; quantity_fits = omega arith };
  quantity_whole = (2, refl);
  filled_whole = (0, refl);
  within = omega arith;
  left = λ h. omega arith;
}

ask-IsWhole : IsWhole ask
ask-IsWhole = record {
  stored = record { price_fits = omega arith; quantity_fits = omega arith };
  quantity_whole = (3, refl);
  filled_whole = (0, refl);
  within = omega arith;
  left = λ h. omega arith;
}

both-IsWhole : (o : Order) → Memᴰ o (bid ∷ ask ∷ []) → IsWhole o
both-IsWhole o m = elim (cases_cons m) [
  | inl is_bid ↦ subst IsWhole (sym is_bid) bid-IsWhole
  | inr later ↦ elim (cases_cons later) [
    | inl is_ask ↦ subst IsWhole (sym is_ask) ask-IsWhole
    | inr none_left ↦ absurd (not-nil none_left)
  ]
]

both_unique :
    (o : Order) → Memᴰ o (bid ∷ ask ∷ []) → find_row (has_id o.id) (bid ∷ ask ∷ []) ≡ some o
both_unique o m = elim (cases_cons m) [
  | inl is_bid ↦
      subst (λ (x : Order). find_row (has_id x.id) (bid ∷ ask ∷ []) ≡ some x) (sym is_bid) refl
  | inr later ↦ elim (cases_cons later) [
    | inl is_ask ↦
        subst (λ (x : Order). find_row (has_id x.id) (bid ∷ ask ∷ []) ≡ some x) (sym is_ask) refl
    | inr none_left ↦ absurd (not-nil none_left)
  ]
]

-- Two are left of the bid, so three rounds are enough.
process_order_ends_example : (process_order 3 bid world).0 ≢ ok out_of_fuel
process_order_ends_example =
    process_order_ends 3 bid bid world (record { whole = both-IsWhole; unique = both_unique }) refl
      (omega arith)

run-IsBook_example :
    ((run (10 ^ 12) (bid ∷ ask ∷ []) world).0 ≡ ok finished)
    × IsBook (run (10 ^ 12) (bid ∷ ask ∷ []) world).1.db.orders
run-IsBook_example =
    run-IsBook (10 ^ 12) (bid ∷ ask ∷ []) world (omega arith)
      (record { whole = both-IsWhole; unique = both_unique })
