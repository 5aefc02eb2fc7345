-- ===== src/Order/Service/Laws.antt =====
-- The order service: what placing and cancelling an order have done, whichever way they end.
use Prim.Native.String.{String}
use text.Mathlib.Text.{◌==◌ as str_eq}
use multi_trade_platform.Base.{
  ℕ, ◌≡◌, refl, ◌∙◌, arith, true, Option, none, some, Result, ok, err, find_row, Bool-cases, inl,
  inr,
}
use multi_trade_platform.Store.{
  World, Error, Order, Wallet, Holding, Side, buy, sell, OrderStatus, attempt, ◌>>=◌,
}
use multi_trade_platform.Store.Laws.{
  IsAtomic, IsAtomic-error, run_tx-IsAtomic, run_tx-ok, statement-ok, served, >>=-step, >>-step,
  fail_if-ok,
}
use multi_trade_platform.Store.Reading.{
  IsReading, or_fail-IsReading, attempt-IsReading, statement-IsReading, fail_if-IsReading,
  from_result-IsReading, >>=-IsReading, >>=-IsAtomic, >>-IsAtomic, attempt-IsAtomic,
}
use multi_trade_platform.Decimal.BigFloat.{Float}
use multi_trade_platform.Wallet.Repository.{get_by_user_id}
use multi_trade_platform.Portfolio.{get_holding}
use multi_trade_platform.Order.Repository.{
  get_by_idempotency_key, has_id, is_open, set_status, update_status,
}
use multi_trade_platform.Order.Repository.Effects.{get_by_id_for_update-ok}
use multi_trade_platform.Order.Service.{
  cancel_order, cancel_tx, with_status, place_order, PlaceOrderInput, get_asset, wallet_covers,
  holding_covers, check_funds, check_wallet_balance, check_asset_holding, looked_up, find_existing,
  after_create, place_new, place_unless,
}

cancel_order-IsAtomic : (user_id order_id : ℕ) → IsAtomic (cancel_order user_id order_id)
unfolding cancel_order
cancel_order-IsAtomic user_id order_id = run_tx-IsAtomic _

-- A cancellation that ends in an error changes no table.
pub cancel_order_error :
    (user_id order_id : ℕ) (w : World) (e : Error) (w' : World)
    → cancel_order user_id order_id w ≡ (err e, w')
    → w'.db ≡ w.db
cancel_order_error user_id order_id w e w' h =
    IsAtomic-error (cancel_order user_id order_id) w e w' (cancel_order-IsAtomic user_id order_id) h

update_status-ok :
    (id : ℕ) (status : OrderStatus) (w : World) (a : Unit {0}) (w' : World)
    → update_status id status w ≡ (ok a, w')
    → w'.db ≡ record w.db { orders = set_status id status w.db.orders }
unfolding update_status
update_status-ok id status w a w' e = let done = statement-ok _ w a w' e in ground arith

-- A cancellation that succeeds was of an open order of the user's own. It answers with that order,
-- cancelled, and has changed the status of that order and nothing else.
pub cancel_order_effect :
    (user_id order_id : ℕ) (w : World) (o : Order) (w' : World)
    → cancel_order user_id order_id w ≡ (ok o, w')
    → (before : Order) × (find_row (has_id order_id) w.db.orders ≡ some before)
      × (before.user_id ≡ user_id)
      × (is_open before.status ≡ true)
      × (o ≡ with_status OrderStatus.cancelled before)
      × (w'.db ≡ record w.db { orders = set_status order_id OrderStatus.cancelled w.db.orders })
unfolding cancel_order cancel_tx
cancel_order_effect user_id order_id w o w' e =
    let (w₁, ran, same) = run_tx-ok _ w o w' e in
    >>=-step _ _ ran λ before w₂ e₂ k₂.
      let (found, same₂) = get_by_id_for_update-ok order_id (served w) before w₂ e₂ in
      >>-step _ _ k₂ λ u₃ w₃ e₃ k₃.
        let (own, same₃) = fail_if-ok _ _ w₂ u₃ w₃ e₃ in
        >>-step _ _ k₃ λ u₄ w₄ e₄ k₄.
          let (can, same₄) = fail_if-ok _ _ w₃ u₄ w₄ e₄ in
          >>-step _ _ k₄ λ u₅ w₅ e₅ k₅.
            let db₅ = update_status-ok order_id _ w₄ u₅ w₅ e₅ in
            let owned : before.user_id ≡ user_id = ground arith in
            let opened : is_open before.status ≡ true = ground arith in
            let answer : o ≡ with_status OrderStatus.cancelled before = ground arith in
            let db₁ : w₁.db ≡ w₅.db = ground arith in
            let db₄ : w₄.db ≡ w.db = ground arith in
            (before, found, owned, opened, answer, same ∙ (db₁ ∙ (db₅ ∙ rw db₄ refl)))

pub get_asset-IsReading : (id : ℕ) → IsReading (get_asset id)
unfolding get_asset ◌>>=◌
get_asset-IsReading id = statement-IsReading _ (λ w. or_fail-IsReading _ _ w)

get_by_idempotency_key-IsReading :
    (user_id : ℕ) (key : String) → IsReading (get_by_idempotency_key user_id key)
unfolding get_by_idempotency_key ◌>>=◌
get_by_idempotency_key-IsReading user_id key = statement-IsReading _ (λ w. or_fail-IsReading _ _ w)

pub get_by_user_id-IsReading : (user_id : ℕ) → IsReading (get_by_user_id user_id)
unfolding get_by_user_id ◌>>=◌
get_by_user_id-IsReading user_id = statement-IsReading _ (λ w. or_fail-IsReading _ _ w)

get_holding-IsReading : (user_id asset_id : ℕ) → IsReading (get_holding user_id asset_id)
unfolding get_holding ◌>>=◌
get_holding-IsReading user_id asset_id = statement-IsReading _ (λ w. or_fail-IsReading _ _ w)

wallet_covers-IsReading : (f : Float) (r : Result Error Wallet) → IsReading (wallet_covers f r)
wallet_covers-IsReading f (ok x) w = fail_if-IsReading _ _ w
wallet_covers-IsReading f (err x) w = ground arith

holding_covers-IsReading : (f : Float) (r : Result Error Holding) → IsReading (holding_covers f r)
holding_covers-IsReading f (ok x) w = fail_if-IsReading _ _ w
holding_covers-IsReading f (err x) w = ground arith

check_funds-IsReading :
    (user_id : ℕ) (input : PlaceOrderInput) (price qty : Float) (side : Side)
    → IsReading (check_funds user_id input price qty side)
unfolding check_wallet_balance check_asset_holding
check_funds-IsReading user_id input price qty buy =
    >>=-IsReading _ _
      (attempt-IsReading (get_by_user_id user_id) (get_by_user_id-IsReading user_id))
      (wallet_covers-IsReading _)
check_funds-IsReading user_id input price qty sell =
    >>=-IsReading _ _
      (attempt-IsReading (get_holding user_id input.asset_id)
        (get_holding-IsReading user_id input.asset_id))
      (holding_covers-IsReading _)

looked_up-IsReading : (r : Result Error Order) → IsReading (looked_up r)
looked_up-IsReading (ok o) w = refl
looked_up-IsReading (err e) w = ground arith

lookup-IsReading :
    (user_id : ℕ) (key : String)
    → IsReading (attempt (get_by_idempotency_key user_id key) >>= λ r. looked_up r)
lookup-IsReading user_id key =
    >>=-IsReading _ _
      (attempt-IsReading (get_by_idempotency_key user_id key)
        (get_by_idempotency_key-IsReading user_id key))
      looked_up-IsReading

find_existing-IsReading :
    (user_id : ℕ) (key : Option String) → IsReading (find_existing user_id key)
unfolding find_existing
find_existing-IsReading user_id none w = refl
find_existing-IsReading user_id (some key) w = elim (Bool-cases (str_eq key "")) [
  | inl h ↦ ground arith
  | inr h ↦ let same = lookup-IsReading user_id key w in ground arith
]

after_create-IsReading :
    (user_id : ℕ) (key : Option String) (e : Error) → IsReading (after_create user_id key (err e))
unfolding after_create
after_create-IsReading user_id none e = λ w. refl
after_create-IsReading user_id (some key) Error.duplicate_idempotency_key =
    >>=-IsReading _ _
      (attempt-IsReading (get_by_idempotency_key user_id key)
        (get_by_idempotency_key-IsReading user_id key))
      λ r. >>=-IsReading _ _ (from_result-IsReading _) λ o w. refl
after_create-IsReading user_id (some key) e = λ w. refl

place_order-IsAtomic :
    (user_id : ℕ) (input : PlaceOrderInput) → IsAtomic (place_order user_id input)
unfolding place_order place_unless place_new
place_order-IsAtomic user_id input =
    >>=-IsAtomic _ _ (find_existing-IsReading user_id input.idempotency_key) place_unless-IsAtomic
  where
    place_unless-IsAtomic : (o : Option Order) → IsAtomic (place_unless user_id input o)
    place_unless-IsAtomic (some o) = λ w e h. absurd (ground arith)
    place_unless-IsAtomic none = >>=-IsAtomic _ _ (or_fail-IsReading _ _) λ price.
        >>=-IsAtomic _ _ (or_fail-IsReading _ _) λ qty.
          >>=-IsAtomic _ _ (get_asset-IsReading input.asset_id) λ a.
            >>-IsAtomic _ _ (fail_if-IsReading _ _) (
              >>-IsAtomic _ _ (check_funds-IsReading user_id input price qty input.side) (
                attempt-IsAtomic _ _ (run_tx-IsAtomic _) (λ o w e h. ground arith)
                  (after_create-IsReading user_id input.idempotency_key)))

-- Placing an order that ends in an error, at whichever statement, changes no table.
pub place_order_error :
    (user_id : ℕ) (input : PlaceOrderInput) (w : World) (e : Error) (w' : World)
    → place_order user_id input w ≡ (err e, w')
    → w'.db ≡ w.db
place_order_error user_id input w e w' h =
    IsAtomic-error (place_order user_id input) w e w' (place_order-IsAtomic user_id input) h
