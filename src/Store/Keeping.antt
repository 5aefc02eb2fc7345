-- ===== src/Store/Keeping.antt =====
-- Calls that leave the table of the orders as it was, however they end.
use multi_trade_platform.Base.{
  ◌≡◌, refl, ◌∙◌, Bool, true, false, Option, none, some, Result, ok, err, inl, inr,
}
use multi_trade_platform.Store.Rows.{Db}
use multi_trade_platform.Store.Session.{
  World, Error, M, ◌>>=◌, ◌>>◌, statement, pure, fail, or_fail, fail_if, modify, read_db,
  next_serial,
}
use multi_trade_platform.Store.Laws.{statement-cases, served}

unfoldable pub KeepsOrders : {A : Type 0} → M A → Type 0
KeepsOrders m = (w : World) → (m w).1.db.orders ≡ w.db.orders

module _ {A : Type 0} where
  pub KeepsOrders-orders : (m : M A) → KeepsOrders m → (w : World) → (m w).1.db.orders ≡ w.db.orders
  unfolding KeepsOrders
  KeepsOrders-orders m keeps w = keeps w

  pub pure-KeepsOrders : (a : A) → KeepsOrders (pure a)
  unfolding KeepsOrders
  pure-KeepsOrders a w = refl

  pub or_fail-KeepsOrders : (o : Option A) (e : Error) → KeepsOrders (or_fail o e)
  unfolding KeepsOrders
  or_fail-KeepsOrders none e w = refl
  or_fail-KeepsOrders (some a) e w = refl

  pub statement-KeepsOrders : (m : M A) → KeepsOrders m → KeepsOrders (statement m)
  unfolding KeepsOrders
  statement-KeepsOrders m keeps w = elim (statement-cases m w) [
    | inl lost ↦ rw lost refl
    | inr ran ↦ rw ran (keeps (served w))
  ]

pub fail-KeepsOrders : (A : Type 0) (e : Error) → KeepsOrders {A = A} (fail e)
unfolding KeepsOrders
fail-KeepsOrders A e w = refl

pub fail_if-KeepsOrders : (b : Bool) (e : Error) → KeepsOrders (fail_if b e)
unfolding KeepsOrders
fail_if-KeepsOrders true e w = refl
fail_if-KeepsOrders false e w = refl

pub read_db-KeepsOrders : KeepsOrders read_db
unfolding KeepsOrders
read_db-KeepsOrders w = refl

pub next_serial-KeepsOrders : KeepsOrders next_serial
unfolding KeepsOrders
next_serial-KeepsOrders w = refl

pub modify-KeepsOrders :
    (f : Db → Db) → ((d : Db) → (f d).orders ≡ d.orders) → KeepsOrders (modify f)
unfolding KeepsOrders
modify-KeepsOrders f same w = same w.db

module _ {A B : Type 0} (m : M A) where
  keeps_result :
      (f : A → M B) (r : Result Error A) (w₁ : World)
      → ((a : A) → KeepsOrders (f a))
      → (elim r as (λ _. Result Error B × World) [
        | ok a ↦ f a w₁
        | err e ↦ (err e, w₁)
      ]).1.db.orders
        ≡ w₁.db.orders
  unfolding KeepsOrders
  keeps_result f (ok a) w₁ next = next a w₁
  keeps_result f (err e) w₁ next = refl

  pub >>=-KeepsOrders :
      (f : A → M B) → KeepsOrders m → ((a : A) → KeepsOrders (f a)) → KeepsOrders (m >>= f)
  unfolding KeepsOrders ◌>>=◌
  >>=-KeepsOrders f first next w = keeps_result f (m w).0 (m w).1 next ∙ first w

  pub >>-KeepsOrders : (k : M B) → KeepsOrders m → KeepsOrders k → KeepsOrders (m >> k)
  unfolding ◌>>◌
  >>-KeepsOrders k first next = >>=-KeepsOrders (λ _. k) first (λ _. next)
