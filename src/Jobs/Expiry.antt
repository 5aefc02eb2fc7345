-- ===== src/Jobs/Expiry.antt =====
-- order_expiry.go: open orders of more than a day are cancelled.
use multi_trade_platform.Base.{
  ℕ, ◌≡◌, refl, ap, sym, ◌∙◌, arith, ◌<◌, Bool, true, false, ◌&&◌, List, [], ◌∷◌, some, Result, ok,
  err, ltb, find_row, update_rows, select, ◌==◌, length, Bool-cases, ◌⊎◌, inl, inr, if◌then◌else◌,
}
use multi_trade_platform.Store.{
  M, World, pure, attempt, read_db, modify, statement, Db, ◌>>=◌, ◌>>◌, Error, Order, OrderStatus,
}
use multi_trade_platform.Order.Repository.{has_id, is_open}
use multi_trade_platform.Order.Service.{with_status}

-- Open, and created before the cutoff, which is now less 24 hours.
abbrev pub is_stale : ℕ → Order → Bool
is_stale cutoff o = is_open o.status && ltb o.created_at cutoff

abbrev pub expired : ℕ → List Order → List Order
expired cutoff = update_rows (is_stale cutoff) (with_status OrderStatus.cancelled)

-- The UPDATE, which answers with the number of its rows.
abbrev expire_rows : ℕ → M ℕ
expire_rows cutoff = do
  db ← read_db
  modify (λ db. record db { orders = expired cutoff db.orders })
  pure (length (select (is_stale cutoff) db.orders))

abbrev pub count_or_zero : Result Error ℕ → ℕ
count_or_zero (ok n) = n
count_or_zero (err e) = 0

-- ExpireStaleOrders. A failure is logged, and the answer is 0.
unfoldable pub expire_stale_orders : ℕ → M ℕ
expire_stale_orders cutoff = do r ← attempt (statement (expire_rows cutoff)); pure (count_or_zero r)

find_row-expired :
    (cutoff id : ℕ) (o : Order) (os : List Order)
    → find_row (has_id id) os ≡ some o
    → find_row (has_id id) (expired cutoff os)
      ≡ some (if is_stale cutoff o then with_status OrderStatus.cancelled o else o)
find_row-expired cutoff id o [] h = absurd (ground arith)
find_row-expired cutoff id o (x ∷ xs) h = elim (Bool-cases (x.id == id)) [
  | inl k ↦
      let is_x : x ≡ o = ground arith in
      elim (Bool-cases (is_stale cutoff x)) [ inl l ↦ ground arith | inr l ↦ ground arith ]
  | inr k ↦
      let rest = find_row-expired cutoff id o xs (ground arith) in
      elim (Bool-cases (is_stale cutoff x)) [ inl l ↦ ground arith | inr l ↦ ground arith ]
]

-- Waiting or partly filled, and created before the cutoff.
unfoldable pub IsDue : ℕ → Order → Type 0
IsDue cutoff o =
    ((o.status ≡ OrderStatus.pending) ⊎ (o.status ≡ OrderStatus.partially_filled))
    × (o.created_at < cutoff)

IsDue-is_stale :
    (cutoff : ℕ) (o : Order) (status : OrderStatus)
    → o.status ≡ status
    → (IsDue cutoff o × (is_stale cutoff o ≡ true))
      ⊎ (¬ IsDue cutoff o × (is_stale cutoff o ≡ false))
unfolding IsDue
IsDue-is_stale cutoff o OrderStatus.pending h = elim (Bool-cases (ltb o.created_at cutoff)) [
  | inl l ↦ inl ((inl h, ground arith), ground arith)
  | inr l ↦ inr ((λ due. ground arith), ground arith)
]
IsDue-is_stale cutoff o OrderStatus.partially_filled h =
    elim (Bool-cases (ltb o.created_at cutoff)) [
      | inl l ↦ inl ((inr h, ground arith), ground arith)
      | inr l ↦ inr ((λ due. ground arith), ground arith)
    ]
IsDue-is_stale cutoff o OrderStatus.filled h = inr ((λ due. ground arith), ground arith)
IsDue-is_stale cutoff o OrderStatus.cancelled h = inr ((λ due. ground arith), ground arith)

expire_go :
    (cutoff : ℕ) (w : World) (fs : List Bool) (n : ℕ) (w' : World)
    → w.faults ≡ fs
    → expire_stale_orders cutoff w ≡ (ok n, w')
    → ((n ≡ 0) × (w'.db ≡ w.db) × ((gs : List Bool) × (fs ≡ true ∷ gs)))
      ⊎ (w'.db ≡ record w.db { orders = expired cutoff w.db.orders })
unfolding expire_stale_orders statement ◌>>=◌ ◌>>◌
expire_go cutoff w [] n w' h e = inr (ground arith)
expire_go cutoff w (true ∷ fs) n w' h e = inl (ground arith, ground arith, (fs, refl))
expire_go cutoff w (false ∷ fs) n w' h e = inr (ground arith)

-- The job, run on a table with the order: either its statement was lost, the answer is 0 and no table
-- has changed; or no other table has changed, and the order is cancelled where it was pending or
-- partially filled and created before the cutoff, and as it was where not.
pub expire_stale_orders_effect :
    (cutoff id n : ℕ) (o : Order) (w w' : World)
    → find_row (has_id id) w.db.orders ≡ some o
    → expire_stale_orders cutoff w ≡ (ok n, w')
    → ((n ≡ 0) × (w'.db ≡ w.db) × ((fs : List Bool) × (w.faults ≡ true ∷ fs)))
      ⊎ ((w'.db ≡ record w.db { orders = w'.db.orders })
          × ((IsDue cutoff o
                × (find_row (has_id id) w'.db.orders ≡ some (with_status OrderStatus.cancelled o)))
              ⊎ (¬ IsDue cutoff o × (find_row (has_id id) w'.db.orders ≡ some o))))
expire_stale_orders_effect cutoff id n o w w' found e =
    elim (expire_go cutoff w w.faults n w' refl e) [
      | inl lost ↦ inl lost
      | inr changed ↦
          let after = find_row-expired cutoff id o w.db.orders found in
          let orders : w'.db.orders ≡ expired cutoff w.db.orders =
            ap (λ (d : Db). d.orders) changed in
          let frame : w'.db ≡ record w.db { orders = w'.db.orders } =
            changed ∙ sym (ap (λ os. record w.db { orders = os }) orders) in
          inr (
            frame,
            elim (IsDue-is_stale cutoff o o.status refl) [
              | inl (due, stale) ↦ inl (due, rw orders (ground arith))
              | inr (other, fresh) ↦ inr (other, rw orders (ground arith))
            ],
          )
    ]
