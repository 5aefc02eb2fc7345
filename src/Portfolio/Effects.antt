-- ===== src/Portfolio/Effects.antt =====
-- What the statements of the portfolio repository have done when they succeed.
use multi_trade_platform.Base.{
  ℕ, ◌≤◌, ◌≡◌, ◌≢◌, refl, arith, List, [], ◌∷◌, ◌++◌, Option, none, some, ok, find_row,
  find_row-holds, find_row-append, find_row-update_rows, update_rows, Option-cases, inl, inr,
}
use multi_trade_platform.Decimal.BigFloat.{NumText}
use multi_trade_platform.Decimal.Exact.{column}
use multi_trade_platform.Store.{◌>>=◌, ◌>>◌, World, Holding, numeric, non_negative}
use multi_trade_platform.Store.Laws.{served, statement-ok}
use multi_trade_platform.Store.Numeric.{non_negative-column_eq}
use multi_trade_platform.Portfolio.{
  is_holding, bought, sold, store_bought, store_sold, upsert_buyer_holding, reduce_seller_holding,
}

-- The holdings after a purchase, by the row that is there, and after a sale.
abbrev after_purchase_of : ℕ → ℕ → ℕ → ℕ → Option Holding → List Holding → List Holding
after_purchase_of user_id asset_id qty price none hs =
    hs
    ++ record { user_id = user_id; asset_id = asset_id; quantity = qty; average_buy_price = price }
      ∷ []
after_purchase_of user_id asset_id qty price (some h) hs =
    update_rows (is_holding user_id asset_id) (bought qty price) hs

abbrev pub after_purchase : ℕ → ℕ → ℕ → ℕ → List Holding → List Holding
after_purchase user_id asset_id qty price hs =
    after_purchase_of user_id asset_id qty price (find_row (is_holding user_id asset_id) hs) hs

abbrev pub after_sale : ℕ → ℕ → ℕ → List Holding → List Holding
after_sale user_id asset_id qty hs = update_rows (is_holding user_id asset_id) (sold qty) hs

after_purchase_of-other :
    (u v s r q p : ℕ) (row : Option Holding) (hs : List Holding) (h : Holding)
    → u ≢ v
    → find_row (is_holding v r) hs ≡ some h
    → find_row (is_holding v r) (after_purchase_of u s q p row hs) ≡ some h
after_purchase_of-other u v s r q p none hs h ne found = find_row-append _ hs _ h found
after_purchase_of-other u v s r q p (some k) hs h ne found =
    let holds = find_row-holds (is_holding v r) hs h found in
    find_row-update_rows _ _ _ hs h (λ x. refl) (ground arith) found

-- A purchase does not change another user's holding.
pub after_purchase-other :
    (u v s r q p : ℕ) (hs : List Holding) (h : Holding)
    → u ≢ v
    → find_row (is_holding v r) hs ≡ some h
    → find_row (is_holding v r) (after_purchase u s q p hs) ≡ some h
after_purchase-other u v s r q p hs h ne found =
    after_purchase_of-other u v s r q p (find_row (is_holding u s) hs) hs h ne found

store_bought-ok :
    (u s q p : ℕ) (row : Option Holding) (w : World) (a : Unit {0}) (w' : World)
    → store_bought u s q p row w ≡ (ok a, w')
    → w'.db ≡ record w.db { holdings = after_purchase_of u s q p row w.db.holdings }
unfolding store_bought ◌>>◌
store_bought-ok u s q p none w a w' e = ground arith
store_bought-ok u s q p (some h) w a w' e = ground arith

pub upsert_buyer_holding-ok :
    (u s q p : ℕ) (qty price : NumText) (w : World) (a : Unit {0}) (w' : World)
    → qty ≡ column q
    → price ≡ column p
    → upsert_buyer_holding u s qty price w ≡ (ok a, w')
    → w'.db ≡ record w.db { holdings = after_purchase u s q p w.db.holdings }
unfolding upsert_buyer_holding ◌>>=◌
upsert_buyer_holding-ok u s q p qty price w a w' eq ep e =
    let done = statement-ok _ w a w' e in
    elim (Option-cases (non_negative (numeric qty))) [
      | inl h ↦ absurd (ground arith)
      | inr (m, h) ↦ elim (Option-cases (non_negative (numeric price))) [
        | inl k ↦ absurd (ground arith)
        | inr (n, k) ↦
            let same_q : m ≡ q = non_negative-column_eq q m (rw (← eq) h) in
            let same_p : n ≡ p = non_negative-column_eq p n (rw (← ep) k) in
            store_bought-ok u s q p (find_row (is_holding u s) w.db.holdings) (served w) a w'
              (rw (← same_q, ← same_p) (ground arith))
      ]
    ]

store_sold-ok :
    (u s q : ℕ) (row : Option Holding) (h : Holding) (w : World) (a : Unit {0}) (w' : World)
    → row ≡ some h
    → store_sold u s q row w ≡ (ok a, w')
    → (q ≤ h.quantity) × (w'.db ≡ record w.db { holdings = after_sale u s q w.db.holdings })
unfolding store_sold ◌>>◌
store_sold-ok u s q none h w a w' found e = cc
store_sold-ok u s q (some x) h w a w' found e = ground arith

-- A sale by a user who has a holding is covered by it.
pub reduce_seller_holding-ok :
    (u s q : ℕ) (qty : NumText) (h : Holding) (w : World) (a : Unit {0}) (w' : World)
    → qty ≡ column q
    → find_row (is_holding u s) w.db.holdings ≡ some h
    → reduce_seller_holding u s qty w ≡ (ok a, w')
    → (q ≤ h.quantity) × (w'.db ≡ record w.db { holdings = after_sale u s q w.db.holdings })
unfolding reduce_seller_holding ◌>>=◌
reduce_seller_holding-ok u s q qty h w a w' eq found e =
    let done = statement-ok _ w a w' e in
    elim (Option-cases (non_negative (numeric qty))) [
      | inl x ↦ absurd (ground arith)
      | inr (m, x) ↦
          let same : m ≡ q = non_negative-column_eq q m (rw (← eq) x) in
          store_sold-ok u s q (find_row (is_holding u s) w.db.holdings) h (served w) a w' found
            (rw (← same) (ground arith))
    ]
