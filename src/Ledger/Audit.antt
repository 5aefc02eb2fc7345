-- ===== src/Ledger/Audit.antt =====
-- ReconcileWallets on tables that keep the ledger.
use multi_trade_platform.Base.{
  ℕ, ◌-◌, ◌^◌, ◌<◌, ◌≡◌, ◌≢◌, refl, arith, false, List, [], ◌∷◌, ok, inl, inr,
}
use multi_trade_platform.Base.Int.{ℤ, pos}
use multi_trade_platform.Decimal.BigFloat.{
  Float, set_string, read, round, aligned, sub, cmp, greater,
}
use multi_trade_platform.Decimal.Rounding.{round_zero}
use multi_trade_platform.Decimal.Exact.{of_column}
use multi_trade_platform.Store.{M, World, read_db, pure, Wallet, ◌>>=◌}
use multi_trade_platform.Store.Laws.{statement-cases, served}
use multi_trade_platform.Jobs.Reconciliation.{
  default_precision, transaction_sum, discrepancy, sum_query, count_discrepancies, select_wallets,
  reconcile_wallets,
}
use multi_trade_platform.Ledger.{IsBalanced}
use multi_trade_platform.Ledger.Moves.{KeepsLedger}

-- A number less itself is not above any number without a sign.
same_difference :
    (p : ℕ) (f limit : Float)
    → 0 < 2 ^ p
    → f.neg ≡ false
    → limit.neg ≡ false
    → cmp (record (sub p f f) { neg = false }) limit ≢ greater
unfolding sub cmp
same_difference p f limit hp plain positive =
    let none_left : aligned f f - aligned f f ≡ 0 = omega arith in
    let zero_mant : round p (aligned f f - aligned f f) 1 ≡ 0 =
      rw none_left (round_zero p 1 (omega arith) hp) in
    ground arith

-- A balance that equals the sum is no discrepancy.
equal_sum : (x : Wallet) → discrepancy x (ok (pos x.balance)) ≡ 0
unfolding discrepancy set_string
equal_sum x =
    let same =
      same_difference default_precision (of_column default_precision x.balance)
        (read default_precision false 1 8) (omega arith) refl refl in
    ground arith

-- Each query fails, or answers with the balance.
sum_query_lem :
    (x : Wallet) (w : World)
    → transaction_sum x.id w.db.wallet_transactions ≡ pos x.balance
    → (discrepancy x (sum_query x.id w).0 ≡ 0) × ((sum_query x.id w).1.db ≡ w.db)
unfolding sum_query ◌>>=◌ discrepancy
sum_query_lem x w balanced =
    let query : M ℤ = read_db >>= λ db. pure (transaction_sum x.id db.wallet_transactions) in
    elim (statement-cases query w) [
      | inl failed ↦ rw failed (refl, refl)
      | inr done ↦ rw (done, balanced) (equal_sum x, refl)
    ]

count_discrepancies_balanced :
    (ws : List Wallet) (w : World)
    → IsBalanced w.db.wallet_transactions ws
    → (count_discrepancies ws w).0 ≡ ok 0
unfolding count_discrepancies ◌>>=◌
count_discrepancies_balanced [] w balanced = refl
count_discrepancies_balanced (x ∷ ws) w balanced =
    let (none_found, same) = sum_query_lem x w balanced.0 in
    let rest = count_discrepancies_balanced ws (sum_query x.id w).1 (rw same balanced.1) in
    ground arith

-- On tables that keep the ledger the reconciliation of all wallets finds no discrepancy, whichever of
-- its queries fail.
pub reconcile_wallets_balanced : (w : World) → KeepsLedger w.db → (reconcile_wallets w).0 ≡ ok 0
unfolding reconcile_wallets select_wallets ◌>>=◌
reconcile_wallets_balanced w ledger =
    let query : M (List Wallet) = read_db >>= λ db. pure db.wallets in
    elim (statement-cases query w) [
      | inl failed ↦ rw failed refl
      | inr done ↦ rw done (count_discrepancies_balanced w.db.wallets (served w) ledger.balanced)
    ]
