-- ===== src/Matching/Executor/Rollback.antt =====
-- executor.go: the rollbacks of the early returns come to one at the end of the transaction.
use multi_trade_platform.Base.{ℕ, ◌≡◌, refl, ap, ◌∙◌, Option, none, some, Result, ok, err}
use multi_trade_platform.Decimal.BigFloat.{Float}
use multi_trade_platform.Store.{
  M, World, Db, pure, statement, rollback, ◌>>=◌, ◌>>◌, Error, Order, Trade,
}
use multi_trade_platform.Matching.Matcher.{must_parse_big}
use multi_trade_platform.Matching.Executor.{
  lock_orders, fill_quantity, debit_buyer, credit_seller, settle, settle_if, trade_tx, finish,
  buy_order_id, sell_order_id, execute_trade,
}
use multi_trade_platform.Matching.Executor.Branches.{
  rolling_back, lock_orders_by_branch, debit_buyer_by_branch, credit_seller_by_branch,
  settle_by_branch, conclude, execute_trade_by_branch,
}

-- What is made of a result by the rest of a call, and by a rollback.
abbrev proceed : {A B : Type 0} → (A → M B) → Result Error A × World → Result Error B × World
proceed f r = elim r.0 [ ok a ↦ f a r.1 | err e ↦ (err e, r.1) ]

abbrev rolled : {A : Type 0} → Db → Result Error A × World → Result Error A × World
rolled before r = elim r.0 [ ok a ↦ (ok a, r.1) | err e ↦ rollback before e r.1 ]

module _ (before : Db) where
  -- The call m', with its own rollbacks, is m and a rollback where m fails.
  unfoldable IsRolled : {A : Type 0} → M A → M A → Type 0
  IsRolled m' m = (w : World) → m' w ≡ rolling_back before m w

  -- The call m', with its own rollbacks and the commit, is m and the end of the transaction.
  unfoldable IsConcluded : M (Option Trade) → M (Option Trade) → Type 0
  IsConcluded m' m = (w : World) → m' w ≡ finish before (m w).0 (m w).1

  step-IsRolled : {A : Type 0} (m : M A) → IsRolled (rolling_back before m) m
  unfolding IsRolled
  step-IsRolled m w = refl

  pure-IsRolled : {A : Type 0} (a : A) → IsRolled (pure a) (pure a)
  unfolding IsRolled rolling_back
  pure-IsRolled a w = refl

  module _ {A B : Type 0} (m' m : M A) (f' f : A → M B) where
    bind_go :
        (r : Result Error A) (w : World)
        → ((a : A) → IsRolled (f' a) (f a))
        → proceed f' (rolled before (r, w)) ≡ rolled before (proceed f (r, w))
    unfolding IsRolled rolling_back rollback
    bind_go (ok a) w rest = rest a w
    bind_go (err e) w rest = refl

    bind-IsRolled :
        IsRolled m' m → ((a : A) → IsRolled (f' a) (f a)) → IsRolled (m' >>= f') (m >>= f)
    unfolding IsRolled rolling_back ◌>>=◌
    bind-IsRolled same rest w =
        ap (proceed f') (same w) ∙ bind_go (m w).0 (m w).1 (unfold IsRolled rolling_back in rest)

  module _ {A : Type 0} (m' m : M A) (f' f : A → M (Option Trade)) where
    conclude_go :
        (r : Result Error A) (w : World)
        → ((a : A) → IsConcluded (f' a) (f a))
        → proceed f' (rolled before (r, w))
          ≡ finish before (proceed f (r, w)).0 (proceed f (r, w)).1
    unfolding IsConcluded finish rollback
    conclude_go (ok a) w rest = rest a w
    conclude_go (err e) w rest = refl

    bind-IsConcluded :
        IsRolled m' m → ((a : A) → IsConcluded (f' a) (f a)) → IsConcluded (m' >>= f') (m >>= f)
    unfolding IsRolled IsConcluded rolling_back ◌>>=◌
    bind-IsConcluded same rest w =
        ap (proceed f') (same w) ∙ conclude_go (m w).0 (m w).1 (unfold IsConcluded in rest)

  module _ {A B : Type 0} where
    next-IsRolled :
        (m : M A) (f' f : A → M B)
        → ((a : A) → IsRolled (f' a) (f a))
        → IsRolled (rolling_back before m >>= f') (m >>= f)
    next-IsRolled m f' f rest = bind-IsRolled (rolling_back before m) m f' f (step-IsRolled m) rest

    then-IsRolled :
        (m' m : M A) (k' k : M B) → IsRolled m' m → IsRolled k' k → IsRolled (m' >> k') (m >> k)
    unfolding ◌>>◌
    then-IsRolled m' m k' k same rest = bind-IsRolled m' m (λ _. k') (λ _. k) same λ a. rest

  lock_orders-IsRolled :
      (buy_id sell_id : ℕ)
      → IsRolled (lock_orders_by_branch before buy_id sell_id) (lock_orders buy_id sell_id)
  unfolding lock_orders_by_branch lock_orders
  lock_orders-IsRolled buy_id sell_id =
      next-IsRolled _ _ _ λ first. next-IsRolled _ _ _ λ second. pure-IsRolled _

  debit_buyer-IsRolled :
      (o : Order) (cost : Float)
      → IsRolled (debit_buyer_by_branch before o cost) (debit_buyer o cost)
  unfolding debit_buyer_by_branch debit_buyer
  debit_buyer-IsRolled o cost = next-IsRolled _ _ _ λ w. then-IsRolled _ _ _ _ (step-IsRolled _) (
      then-IsRolled _ _ _ _ (step-IsRolled _)
        (then-IsRolled _ _ _ _ (step-IsRolled _) (pure-IsRolled tt)))

  credit_seller-IsRolled :
      (o : Order) (cost : Float)
      → IsRolled (credit_seller_by_branch before o cost) (credit_seller o cost)
  unfolding credit_seller_by_branch credit_seller
  credit_seller-IsRolled o cost = next-IsRolled _ _ _ λ w.
      then-IsRolled _ _ _ _ (step-IsRolled _)
        (then-IsRolled _ _ _ _ (step-IsRolled _) (pure-IsRolled tt))

  settle-IsRolled :
      (b s : Order) (price qty : Float)
      → IsRolled (settle_by_branch before b s price qty) (settle b s price qty)
  unfolding settle_by_branch settle
  settle-IsRolled b s price qty = next-IsRolled _ _ _ λ t. then-IsRolled _ _ _ _ (step-IsRolled _) (
      then-IsRolled _ _ _ _ (step-IsRolled _) (
        then-IsRolled _ _ _ _ (debit_buyer-IsRolled b _) (
          then-IsRolled _ _ _ _ (credit_seller-IsRolled s _) (
            then-IsRolled _ _ _ _ (step-IsRolled _)
              (then-IsRolled _ _ _ _ (step-IsRolled _) (pure-IsRolled t))))))

  conclude-IsConcluded :
      (b s : Order) (price : Float) (qty : Option Float)
      → IsConcluded (conclude before b s price qty) (settle_if b s price qty)
  unfolding conclude settle_if
  conclude-IsConcluded b s price none = unfold IsConcluded finish in λ w. refl
  conclude-IsConcluded b s price (some qty) =
      bind-IsConcluded _ _ _ _ (settle-IsRolled b s price qty)
        λ t. unfold IsConcluded finish in λ w. refl

  trade_tx-IsConcluded :
      (buy_id sell_id : ℕ) (price : Float)
      → IsConcluded
          (do
            (b, s) ← lock_orders_by_branch before buy_id sell_id
            conclude before b s price (fill_quantity b s))
          (trade_tx buy_id sell_id price)
  unfolding trade_tx
  trade_tx-IsConcluded buy_id sell_id price =
      bind-IsConcluded _ _ _ _ (lock_orders-IsRolled buy_id sell_id)
        λ bs. conclude-IsConcluded bs.0 bs.1 price _

begun :
    (incoming candidate : Order) (r : Result Error (Unit {0})) (w : World)
    → let b_id = buy_order_id incoming candidate in
      let s_id = sell_order_id incoming candidate in
      let price = must_parse_big candidate.price in
      let body = trade_tx b_id s_id price in
      let by_branch = (do
        (b, s) ← lock_orders_by_branch w.db b_id s_id
        conclude w.db b s price (fill_quantity b s)) in
      elim r as (λ _. Result Error (Option Trade) × World) [
        | err e ↦ (err e, w)
        | ok _ ↦ by_branch w
      ]
      ≡ elim r [ err e ↦ (err e, w) | ok _ ↦ finish w.db (body w).0 (body w).1 ]
begun incoming candidate (err e) w = refl
begun incoming candidate (ok _) w =
    unfold IsConcluded in
    trade_tx-IsConcluded w.db (buy_order_id incoming candidate) (sell_order_id incoming candidate)
      (must_parse_big candidate.price) w

-- executeTrade, which rolls back in each of its early returns, before it returns the error or reports no
-- trade, does the same as one rollback of the whole body at its end where that fails or trades nothing:
-- whatever the orders, the tables and the statements that fail.
pub execute_trade_by_branch_lem :
    (incoming candidate : Order) (w : World)
    → execute_trade_by_branch incoming candidate w ≡ execute_trade incoming candidate w
unfolding execute_trade_by_branch execute_trade
execute_trade_by_branch_lem incoming candidate w =
    let began = statement (pure tt) w in begun incoming candidate began.0 began.1
