-- ===== src/Wallet/Laws.antt =====
-- The wallet service: deposits and withdrawals.
use native.Mathlib.Decide.{dec_lt}
use multi_trade_platform.Base.{
  ℕ, ◌+◌, ◌-◌, ◌*◌, ◌^◌, ◌≤◌, ◌≡◌, arith, true, false, [], ◌∷◌, ◌++◌, some, ok, err, find_row,
}
use multi_trade_platform.Decimal.BigFloat.{number, Float}
use multi_trade_platform.Decimal.Exact.{
  column, of_column, Fits, add-exact, sub-exact, format-of_column, cmp_less,
}
use multi_trade_platform.Decimal.Sign.{set_string_short}
use multi_trade_platform.Store.{World, Error, Db, Wallet, WalletTransaction, TxType, Description}
use multi_trade_platform.Store.Laws.{
  IsAtomic, IsAtomic-error, checked_tx-IsAtomic, or_fail-ok, fail_if-ok, run_tx-ok, >>=-step,
  >>-step, served,
}
use multi_trade_platform.Wallet.Repository.{of_user, set_balance}
use multi_trade_platform.Wallet.Repository.Effects.{
  get_by_user_id_for_update-step, update_balance-ok_column, insert_transaction-ok_column, Records,
}
use multi_trade_platform.Wallet.{
  AmountInput, UpdatedWallet, updated, deposit, deposit_tx, withdraw, withdraw_tx,
  parse_positive_amount, wallet_precision, covers,
}

deposit-IsAtomic : (u : ℕ) (input : AmountInput) → IsAtomic (deposit u input)
unfolding deposit
deposit-IsAtomic u input = checked_tx-IsAtomic _ _ _

-- A deposit that ends in an error, its own or the database's at any statement, changes no table.
pub deposit_error :
    (u : ℕ) (input : AmountInput) (w : World) (e : Error) (w' : World)
    → deposit u input w ≡ (err e, w')
    → w'.db ≡ w.db
deposit_error u input w e w' h =
    IsAtomic-error (deposit u input) w e w' (deposit-IsAtomic u input) h

withdraw-IsAtomic : (u : ℕ) (input : AmountInput) → IsAtomic (withdraw u input)
unfolding withdraw
withdraw-IsAtomic u input = checked_tx-IsAtomic _ _ _

-- A withdrawal that ends in an error, its own or the database's at any statement, changes no table.
pub withdraw_error :
    (u : ℕ) (input : AmountInput) (w : World) (e : Error) (w' : World)
    → withdraw u input w ≡ (err e, w')
    → w'.db ≡ w.db
withdraw_error u input w e w' h =
    IsAtomic-error (withdraw u input) w e w' (withdraw-IsAtomic u input) h

-- The amount that a text of at most eight places stands for, in units of 10^-8.
abbrev pub amount_of : ℕ → ℕ → ℕ
amount_of c k = c * 10 ^ (8 - k)

parse_positive_amount_short :
    (c k : ℕ) (f : Float)
    → k ≤ 8
    → parse_positive_amount (number false c k) ≡ some f
    → f ≡ of_column wallet_precision (amount_of c k)
unfolding parse_positive_amount
parse_positive_amount_short c k f h e = ground (arith, set_string_short wallet_precision c k h)

-- The tables after wallet x has been set to n and transaction t was recorded.
abbrev pub moved : Db → Wallet → ℕ → WalletTransaction → Db
moved db x n t = record db {
  wallets = set_balance x.id x.version n db.wallets;
  wallet_transactions = db.wallet_transactions ++ t ∷ [];
}

deposit_tx-ok :
    (u a : ℕ) (d : Description) (w : World) (x : Wallet) (v : UpdatedWallet) (t : WalletTransaction)
    (w' : World)
    → find_row (of_user u) w.db.wallets ≡ some x
    → Fits wallet_precision (x.balance + a + 1)
    → deposit_tx u (of_column wallet_precision a) d w ≡ (ok (v, t), w')
    → (v ≡ updated x (column (x.balance + a)))
      × Records x.id a TxType.deposit d t
      × (w'.db ≡ moved w.db x (x.balance + a) t)
unfolding deposit_tx
deposit_tx-ok u a d w x v t w' found fits e =
    get_by_user_id_for_update-step w u x _ found e λ w₁ same k₁.
      let balance = add-exact wallet_precision x.balance a fits in
      let amount = format-of_column wallet_precision a (omega arith) in
      >>-step _ _ k₁ λ _ w₂ e₂ k₂.
        let db₂ = update_balance-ok_column x.id x.version (x.balance + a) _ w₁ _ w₂ balance e₂ in
        >>=-step _ _ k₂ λ t' w₃ e₃ k₃.
          let (recorded, db₃) =
            insert_transaction-ok_column x.id a _ TxType.deposit d w₂ t' w₃ amount e₃ in
          let same_t : t' ≡ t = ground arith in (ground arith, rw (← same_t) recorded, ground arith)

-- A deposit that succeeds has added the exact amount to the user's wallet, one version on, and has
-- recorded one completed deposit of that amount; nothing else has changed. For an amount with at most
-- eight places, and a new balance that 64 bits hold exactly (below about 1.8 * 10^10).
pub deposit_effect :
    (u c k : ℕ) (d : Description) (w : World) (x : Wallet) (v : UpdatedWallet)
    (t : WalletTransaction) (w' : World)
    → k ≤ 8
    → find_row (of_user u) w.db.wallets ≡ some x
    → Fits wallet_precision (x.balance + amount_of c k + 1)
    → deposit u (record { amount = number false c k; description = d }) w ≡ (ok (v, t), w')
    → (v ≡ updated x (column (x.balance + amount_of c k)))
      × Records x.id (amount_of c k) TxType.deposit d t
      × (w'.db ≡ moved w.db x (x.balance + amount_of c k) t)
unfolding deposit
deposit_effect u c k d w x v t w' short found fits e = >>=-step _ _ e λ f w₁ e₁ k₁.
    let (some_f, same₁) = or_fail-ok _ _ w f w₁ e₁ in
    let parsed = parse_positive_amount_short c k f short some_f in
    let (w₂, e₂, same₂) = run_tx-ok _ w₁ (v, t) w' k₁ in
    let (shown, recorded, db) =
      deposit_tx-ok u (amount_of c k) d (served w₁) x v t w₂ (rw same₁ found) fits
        (rw (← parsed) e₂) in
    (shown, recorded, ground arith)

covers_le : (p a b : ℕ) → Fits p b → covers (of_column p a) (of_column p b) ≡ true → b ≤ a
covers_le p a b fits h = elim (dec_lt a b) [
  | yes lt ↦ absurd (ground (arith, cmp_less p a b lt fits))
  | no ge ↦ omega arith
]

withdraw_tx-ok :
    (u a : ℕ) (d : Description) (w : World) (x : Wallet) (v : UpdatedWallet) (t : WalletTransaction)
    (w' : World)
    → find_row (of_user u) w.db.wallets ≡ some x
    → Fits wallet_precision (x.balance + 1)
    → Fits wallet_precision a
    → withdraw_tx u (of_column wallet_precision a) d w ≡ (ok (v, t), w')
    → (a ≤ x.balance)
      × (v ≡ updated x (column (x.balance - a)))
      × Records x.id a TxType.withdrawal d t
      × (w'.db ≡ moved w.db x (x.balance - a) t)
unfolding withdraw_tx
withdraw_tx-ok u a d w x v t w' found fits small e =
    get_by_user_id_for_update-step w u x _ found e λ w₁ same k₁. >>-step _ _ k₁ λ unit w₂ e₂ k₂.
      let (test, same₂) = fail_if-ok _ _ w₁ unit w₂ e₂ in
      let enough = covers_le wallet_precision x.balance a small (ground arith) in
      let balance = sub-exact wallet_precision x.balance a enough fits in
      let amount = format-of_column wallet_precision a small in
      >>-step _ _ k₂ λ _ w₃ e₃ k₃.
        let db₃ = update_balance-ok_column x.id x.version (x.balance - a) _ w₂ _ w₃ balance e₃ in
        >>=-step _ _ k₃ λ t' w₄ e₄ k₄.
          let (recorded, db₄) =
            insert_transaction-ok_column x.id a _ TxType.withdrawal d w₃ t' w₄ amount e₄ in
          let same_t : t' ≡ t = ground arith in
          (enough, ground arith, rw (← same_t) recorded, ground arith)

-- A withdrawal that succeeds was covered by the balance: it has taken the exact amount from the user's
-- wallet, one version on, and has recorded one completed withdrawal of it; nothing else has changed.
-- For an amount with at most eight places, and amounts that 64 bits hold exactly.
pub withdraw_effect :
    (u c k : ℕ) (d : Description) (w : World) (x : Wallet) (v : UpdatedWallet)
    (t : WalletTransaction) (w' : World)
    → k ≤ 8
    → find_row (of_user u) w.db.wallets ≡ some x
    → Fits wallet_precision (x.balance + 1)
    → Fits wallet_precision (amount_of c k)
    → withdraw u (record { amount = number false c k; description = d }) w ≡ (ok (v, t), w')
    → (amount_of c k ≤ x.balance)
      × (v ≡ updated x (column (x.balance - amount_of c k)))
      × Records x.id (amount_of c k) TxType.withdrawal d t
      × (w'.db ≡ moved w.db x (x.balance - amount_of c k) t)
unfolding withdraw
withdraw_effect u c k d w x v t w' short found fits small e = >>=-step _ _ e λ f w₁ e₁ k₁.
    let (some_f, same₁) = or_fail-ok _ _ w f w₁ e₁ in
    let parsed = parse_positive_amount_short c k f short some_f in
    let (w₂, e₂, same₂) = run_tx-ok _ w₁ (v, t) w' k₁ in
    let (enough, shown, recorded, db) =
      withdraw_tx-ok u (amount_of c k) d (served w₁) x v t w₂ (rw same₁ found) fits small
        (rw (← parsed) e₂) in
    (enough, shown, recorded, ground arith)
