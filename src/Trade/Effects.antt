-- ===== src/Trade/Effects.antt =====
-- What the insertion of a trade has done when it succeeds.
use multi_trade_platform.Base.{ℕ, ◌≡◌, arith, [], ◌∷◌, ◌++◌, ok, Option-cases, inl, inr}
use multi_trade_platform.Decimal.BigFloat.{NumText}
use multi_trade_platform.Decimal.Exact.{column}
use multi_trade_platform.Store.{◌>>=◌, ◌>>◌, World, Trade, Order, numeric, non_negative}
use multi_trade_platform.Store.Laws.{statement-ok}
use multi_trade_platform.Store.Numeric.{non_negative-column_eq}
use multi_trade_platform.Trade.{insert}

-- The trade of q units at price p between two orders.
pub record Joins (b s : Order) (p q : ℕ) (t : Trade) : Type 0 where
  pub buying : t.buy_order_id ≡ b.id
  pub selling : t.sell_order_id ≡ s.id
  pub asset : t.asset_id ≡ b.asset_id
  pub at_price : t.price ≡ p
  pub of_quantity : t.quantity ≡ q
  pub buyer : t.buyer_id ≡ b.user_id
  pub seller : t.seller_id ≡ s.user_id

pub insert-ok :
    (b s : Order) (p q : ℕ) (price qty : NumText) (w : World) (t : Trade) (w' : World)
    → price ≡ column p
    → qty ≡ column q
    → insert b s price qty w ≡ (ok t, w')
    → Joins b s p q t × (w'.db ≡ record w.db { trades = w.db.trades ++ t ∷ [] })
unfolding insert ◌>>=◌ ◌>>◌
insert-ok b s p q price qty w t w' ep eq e =
    let done = statement-ok _ w t w' e in
    elim (Option-cases (non_negative (numeric price))) [
      | inl h ↦ absurd (ground arith)
      | inr (m, h) ↦ elim (Option-cases (non_negative (numeric qty))) [
        | inl k ↦ absurd (ground arith)
        | inr (n, k) ↦
            let same_p : m ≡ p = non_negative-column_eq p m (rw (← ep) h) in
            let same_q : n ≡ q = non_negative-column_eq q n (rw (← eq) k) in
            (
              record {
                buying = ground arith;
                selling = ground arith;
                asset = ground arith;
                at_price = ground arith;
                of_quantity = ground arith;
                buyer = ground arith;
                seller = ground arith;
              },
              ground arith,
            )
      ]
    ]
