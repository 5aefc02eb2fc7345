-- ===== src/Matching/Conservation.antt =====
-- A trade moves money, and makes none.
use multi_trade_platform.Base.{
  ℕ, ◌+◌, ◌-◌, ◌*◌, ◌^◌, ◌≤◌, ◌<◌, ◌≡◌, refl, ap, ◌∙◌, arith, some, ok, find_row-update_rows,
}
use multi_trade_platform.Store.{World, Order, Wallet, Trade, Holding, numeric_limit}
use multi_trade_platform.Wallet.Repository.{of_user, at_version, set_balance}
use multi_trade_platform.Wallet.Total.{total, HasKeys, total-set_balance, set_balance-HasKeys}
use multi_trade_platform.Matching.Executor.{execute_trade, buy_order_id, sell_order_id}
use multi_trade_platform.Matching.Executor.Settlement.{Parties}
use multi_trade_platform.Matching.Numbers.{IsStored, tradable}
use multi_trade_platform.Matching.Laws.{execute_trade_effect}

-- Moving c from wallet x to wallet y.
transfer-total :
    (b s : Order) (x y : Wallet) (h : Holding) (c : ℕ) (w : World)
    → Parties w.db b s x y h
    → HasKeys w.db.wallets
    → c ≤ x.balance
    → let paid = set_balance x.id x.version (x.balance - c) w.db.wallets in
      total (set_balance y.id y.version (y.balance + c) paid) ≡ total w.db.wallets
transfer-total b s x y h c w parties keys enough =
    let n = x.balance - c in
    let paid = set_balance x.id x.version n w.db.wallets in
    let debit = total-set_balance (of_user b.user_id) n w.db.wallets x keys parties.buyer_wallet in
    let y_found =
      find_row-update_rows (of_user s.user_id) (at_version x.id x.version) _ w.db.wallets y
        (λ r. refl) (let ne = parties.wallets_differ in ground arith) parties.seller_wallet in
    let credit =
      total-set_balance (of_user s.user_id) (y.balance + c) paid y
        (set_balance-HasKeys x.id x.version n w.db.wallets keys) y_found in
    omega arith

-- A trade that the engine reports keeps the sum of all wallets' balances, under the conditions of
-- `execute_trade_effect` and where no two wallets have the same id.
pub execute_trade_conserves :
    (incoming candidate b s : Order) (x y : Wallet) (h : Holding) (c : ℕ) (w : World) (t : Trade)
    (w' : World)
    → buy_order_id incoming candidate ≡ b.id
    → sell_order_id incoming candidate ≡ s.id
    → IsStored b
    → IsStored s
    → tradable b s * candidate.price ≡ c * 10 ^ 8
    → candidate.price < numeric_limit
    → c < numeric_limit
    → Parties w.db b s x y h
    → HasKeys w.db.wallets
    → execute_trade incoming candidate w ≡ (ok (some t), w')
    → total w'.db.wallets ≡ total w.db.wallets
execute_trade_conserves incoming candidate b s x y h c w t w' buying selling b_stored s_stored exact
      p_fits c_fits parties keys e =
    let (able, settles) =
      execute_trade_effect incoming candidate b s x y h c w t w' buying selling b_stored s_stored
        exact p_fits c_fits parties e in
    ap (λ db. total db.wallets) settles.tables
    ∙ transfer-total b s x y h c w parties keys settles.paid_for
