-- ===== src/Ledger/Payments.antt =====
-- The job that looks for the payments of the trades finds those of a trade that the engine has made.
use multi_trade_platform.Base.{
  ℕ, ◌+◌, ◌*◌, ◌^◌, ◌<◌, ◌≡◌, refl, sym, ◌∙◌, subst, arith, Bool, true, List, [], ◌∷◌, ◌++◌, some,
  ok,
}
use multi_trade_platform.Decimal.BigFloat.{NumText}
use multi_trade_platform.Decimal.Exact.{Fits, column}
use multi_trade_platform.Store.{
  World, Db, Side, buy, sell, Wallet, WalletTransaction, TxType, Description, Order, Trade, Holding,
  numeric_limit, statement, ◌>>=◌,
}
use multi_trade_platform.Wallet.Repository.Effects.{Records}
use multi_trade_platform.Jobs.Reconciliation.{default_precision}
use multi_trade_platform.Jobs.Settlement.{
  cost_text, matches_fill, same_type, transaction_exists, check_trade, check_trades,
  verify_trade_settlements,
}
use multi_trade_platform.Matching.Executor.{execute_trade, buy_order_id, sell_order_id}
use multi_trade_platform.Matching.Executor.Settlement.{Parties, Settles}
use multi_trade_platform.Matching.Numbers.{IsStored, tradable}
use multi_trade_platform.Matching.Laws.{execute_trade_effect}
use multi_trade_platform.Ledger.Settled.{
  IsPaid, AllPaid, AllPaid-append, settled-AllPaid, cost_text-column, any_transaction-append,
  any_transaction_last, any_wallet_last, any_wallet-set_balance,
}

-- LIKE finds "order #N" in the text of a fill of order N.
pub record Mentions (mentions : ℕ → Description → Bool) : Type 0 where
  pub fills : (side : Side) (n : ℕ) → mentions n (Description.trade_fill side n) ≡ true

same_type_own : (kind : TxType) → same_type kind kind ≡ true
same_type_own TxType.deposit = refl
same_type_own TxType.withdrawal = refl

module _ (mentions : ℕ → Description → Bool) (reads : Mentions mentions) where
  recorded_matches :
      (kind : TxType) (cost : NumText) (side : Side) (n wallet_id c : ℕ) (r : WalletTransaction)
      → cost ≡ column c
      → Records wallet_id c kind (Description.trade_fill side n) r
      → matches_fill mentions kind cost n wallet_id r ≡ true
  recorded_matches kind cost side n wallet_id c r text recorded =
      let named = reads.fills side n in
      let own = same_type_own kind in
      rw
        (
          text, recorded.wallet, recorded.value, recorded.type, recorded.state, recorded.text,
          named, own,
        )
        (ground arith)

  settled-IsPaid :
      (db db' : Db) (b s : Order) (x y : Wallet) (h : Holding) (q p c : ℕ) (t : Trade)
      → p * q ≡ c * 10 ^ 8
      → Fits default_precision (70 * c + 1)
      → Parties db b s x y h
      → Settles db b s x y h q p c t db'
      → IsPaid mentions db' t
  unfolding cost_text
  settled-IsPaid db db' b s x y h q p c t exact fits parties settles =
      let joins = settles.joins in
      let cost : cost_text t ≡ column c =
        cost_text-column t c (rw (joins.at_price, joins.of_quantity) exact) fits in
      let paid = settles.paid in
      let earned = settles.earned in
      let ts = db.wallet_transactions in
      let payment =
        any_transaction-append mentions TxType.withdrawal (cost_text t) b.id x.id (ts ++ paid ∷ [])
          (earned ∷ [])
          (any_transaction_last mentions TxType.withdrawal (cost_text t) b.id x.id ts paid (
            recorded_matches TxType.withdrawal (cost_text t) buy b.id x.id c paid cost
              settles.paid_recorded)) in
      let income =
        any_transaction_last mentions TxType.deposit (cost_text t) s.id y.id (ts ++ paid ∷ [])
          earned
          (recorded_matches TxType.deposit (cost_text t) sell s.id y.id c earned cost
            settles.earned_recorded) in
      let all = (ts ++ paid ∷ []) ++ earned ∷ [] in
      rw settles.tables (record {
        buyer =
            rw (joins.buyer, joins.buying)
              (any_wallet-set_balance mentions TxType.withdrawal (cost_text t) b.id b.user_id y.id
                  y.version (y.balance + c) _ all
                ∙ any_wallet-set_balance mentions TxType.withdrawal (cost_text t) b.id b.user_id
                    x.id x.version _ db.wallets all
                ∙ any_wallet_last mentions TxType.withdrawal (cost_text t) b.id b.user_id db.wallets
                    x all parties.buyer_wallet payment);
        seller =
            rw (joins.seller, joins.selling)
              (any_wallet-set_balance mentions TxType.deposit (cost_text t) s.id s.user_id y.id
                  y.version (y.balance + c) _ all
                ∙ any_wallet-set_balance mentions TxType.deposit (cost_text t) s.id s.user_id x.id
                    x.version _ db.wallets all
                ∙ any_wallet_last mentions TxType.deposit (cost_text t) s.id s.user_id db.wallets y
                    all parties.seller_wallet income);
      })

  check_trade-IsPaid :
      (t : Trade) (w : World)
      → w.faults ≡ []
      → IsPaid mentions w.db t
      → check_trade mentions t w ≡ (ok 0, w)
  unfolding check_trade transaction_exists statement ◌>>=◌
  check_trade-IsPaid t w served paid = let a = paid.buyer in let b = paid.seller in ground arith

  check_trades-AllPaid :
      (ts : List Trade) (w : World)
      → w.faults ≡ []
      → AllPaid mentions w.db ts
      → check_trades mentions ts w ≡ (ok 0, w)
  unfolding check_trades AllPaid ◌>>=◌
  check_trades-AllPaid [] w served all = refl
  check_trades-AllPaid (t ∷ ts) w served all =
      let one = check_trade-IsPaid t w served all.0 in
      let rest = check_trades-AllPaid ts w served all.1 in ground arith

  verify-AllPaid :
      (w : World)
      → w.faults ≡ []
      → AllPaid mentions w.db w.db.trades
      → (verify_trade_settlements mentions w).0 ≡ ok 0
  unfolding verify_trade_settlements statement ◌>>=◌
  verify-AllPaid w served all =
      let done = check_trades-AllPaid w.db.trades w served all in ground arith

  -- If VerifyTradeSettlements would find the payments of all trades, and executeTrade then reports one
  -- more, under the conditions of its effect and for a cost that 64 bits hold exactly, then the tables
  -- have the payments of that trade too, and the job, if none of its queries fails, counts no
  -- discrepancy. LIKE is to find the number of an order in the text of its fill.
  pub verify_trade_settlements-execute_trade :
      (incoming candidate b s : Order) (x y : Wallet) (h : Holding) (c : ℕ) (w : World) (t : Trade)
      (w' : World)
      → buy_order_id incoming candidate ≡ b.id
      → sell_order_id incoming candidate ≡ s.id
      → IsStored b
      → IsStored s
      → tradable b s * candidate.price ≡ c * 10 ^ 8
      → candidate.price < numeric_limit
      → Fits default_precision (70 * c + 1)
      → Parties w.db b s x y h
      → AllPaid mentions w.db w.db.trades
      → execute_trade incoming candidate w ≡ (ok (some t), w')
      → AllPaid mentions w'.db w'.db.trades
        × ((verify_trade_settlements mentions (record w' { faults = [] })).0 ≡ ok 0)
  verify_trade_settlements-execute_trade incoming candidate b s x y h c w t w' buying selling
        b_stored s_stored exact p_fits fits parties all e =
      let c_fits : c < numeric_limit = omega (arith, fits) in
      let (able, settles) =
        execute_trade_effect incoming candidate b s x y h c w t w' buying selling b_stored s_stored
          exact p_fits c_fits parties e in
      let cost : candidate.price * tradable b s ≡ c * 10 ^ 8 = omega (arith, exact) in
      let one = settled-IsPaid w.db w'.db b s x y h _ _ c t cost fits parties settles in
      let old =
        settled-AllPaid mentions w.db b s x y (tradable b s) candidate.price c t settles.paid
          settles.earned w.db.trades all in
      let every : AllPaid mentions w'.db w'.db.trades =
        subst (λ (d : Db). AllPaid mentions d d.trades) (sym settles.tables)
          (AllPaid-append mentions _ w.db.trades t old
            (subst (λ (d : Db). IsPaid mentions d t) settles.tables one)) in
      (every, verify-AllPaid (record w' { faults = [] }) refl every)
