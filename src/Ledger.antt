-- ===== src/Ledger.antt =====
-- The ledger: each wallet's balance is the sum of its completed transactions, as reconciliation.go
-- wants it. The children prove that deposits, withdrawals and trades keep it so.
pub mod Moves
pub mod Audit
pub mod Run
pub mod Settled
pub mod Payments
use multi_trade_platform.Base.{
  ℕ, suc, ◌+◌, ◌-◌, ◌≡◌, ◌≢◌, refl, sym, ap, subst, ◌∙◌, arith, Bool, true, false, List, [], ◌∷◌,
  ◌++◌, none, some, ◌==◌, find_row, Bool-cases, inl, inr, if◌then◌else◌,
}
use multi_trade_platform.Base.Int.{ℤ, pos, ◌+ℤ◌, +ℤ_assoc, +ℤ_zero, zero-+ℤ}
use multi_trade_platform.Store.{Db, Wallet, WalletTransaction}
use multi_trade_platform.Wallet.Repository.{at_version, set_balance}
use multi_trade_platform.Wallet.Total.{has_wallet_id, HasKeys, found_key}
use multi_trade_platform.Jobs.Reconciliation.{signed_amount, counts_for, transaction_sum}

-- Every wallet of the list has the balance that the transactions add up to.
abbrev pub IsBalanced : List WalletTransaction → List Wallet → Type 0
IsBalanced ts [] = Unit
IsBalanced ts (x ∷ xs) = (transaction_sum x.id ts ≡ pos x.balance) × IsBalanced ts xs

-- What one more transaction adds to a wallet.
abbrev pub added : ℕ → WalletTransaction → ℤ
added id t = if counts_for id t then signed_amount t else pos 0

transaction_sum-append :
    (id : ℕ) (ts : List WalletTransaction) (t : WalletTransaction)
    → transaction_sum id (ts ++ t ∷ []) ≡ transaction_sum id ts +ℤ added id t
unfolding transaction_sum
transaction_sum-append id [] t = elim (Bool-cases (counts_for id t)) [
  | inl h ↦ rw h (+ℤ_zero (signed_amount t) ∙ sym (zero-+ℤ (signed_amount t)))
  | inr h ↦ rw h (sym (zero-+ℤ (pos 0)))
]
transaction_sum-append id (s ∷ ts) t =
    let rest = transaction_sum-append id ts t in
    elim (Bool-cases (counts_for id s)) [
      | inl h ↦ rw (h, rest) (+ℤ_assoc (signed_amount s) (transaction_sum id ts) (added id t))
      | inr h ↦ rw (h, rest) refl
    ]

-- A transaction of another wallet adds nothing.
other-transaction :
    (id : ℕ) (ts : List WalletTransaction) (t : WalletTransaction)
    → t.wallet_id ≢ id
    → transaction_sum id (ts ++ t ∷ []) ≡ transaction_sum id ts
other-transaction id ts t other =
    let apart : counts_for id t ≡ false = ground arith in
    transaction_sum-append id ts t ∙ rw apart (+ℤ_zero (transaction_sum id ts))

others-IsBalanced :
    (id v n : ℕ) (ts : List WalletTransaction) (t : WalletTransaction) (xs : List Wallet)
    → t.wallet_id ≡ id
    → find_row (has_wallet_id id) xs ≡ none
    → IsBalanced ts xs
    → IsBalanced (ts ++ t ∷ []) (set_balance id v n xs)
others-IsBalanced id v n ts t [] of absent balanced = tt
others-IsBalanced id v n ts t (x ∷ xs) of absent balanced = elim (Bool-cases (x.id == id)) [
  | inl h ↦ absurd (ground arith)
  | inr h ↦
      let rest = others-IsBalanced id v n ts t xs of (ground arith) balanced.1 in
      let same = other-transaction x.id ts t (ground arith) in ground arith
]

-- A balance that is set together with the transaction that explains it.
pub explained-IsBalanced :
    (p : Wallet → Bool) (n : ℕ) (ts : List WalletTransaction) (t : WalletTransaction)
    (xs : List Wallet) (x : Wallet)
    → t.wallet_id ≡ x.id
    → pos x.balance +ℤ added x.id t ≡ pos n
    → HasKeys xs
    → find_row p xs ≡ some x
    → IsBalanced ts xs
    → IsBalanced (ts ++ t ∷ []) (set_balance x.id x.version n xs)
explained-IsBalanced p n ts t [] x of sum keys found balanced = tt
explained-IsBalanced p n ts t (y ∷ ys) x of sum keys found balanced = elim (Bool-cases (p y)) [
  | inl k ↦
      let is_y : y ≡ x = ground arith in
      let absent : find_row (has_wallet_id x.id) ys ≡ none = rw (← is_y) keys.0 in
      let rest = others-IsBalanced x.id x.version n ts t ys of absent balanced.1 in
      let head : transaction_sum x.id (ts ++ t ∷ []) ≡ pos n =
        transaction_sum-append x.id ts t
        ∙ (ap (λ (a : ℤ). a +ℤ added x.id t)
              (let b : transaction_sum x.id ts ≡ pos x.balance = rw (← is_y) balanced.0 in b)
            ∙ sum) in
      let row : set_balance x.id x.version n (y ∷ ys)
          ≡ record x { balance = n; version = suc x.version } ∷ set_balance x.id x.version n ys =
        rw is_y (ground arith) in
      subst (IsBalanced (ts ++ t ∷ [])) (sym row) (head, rest)
  | inr k ↦
      let later : find_row p ys ≡ some x = ground arith in
      let there = found_key p ys x later in
      let rest = explained-IsBalanced p n ts t ys x of sum keys.1 later balanced.1 in
      let other : y.id ≢ x.id = λ e. there (let absent = keys.0 in ground arith) in
      let same = other-transaction y.id ts t (ground arith) in ground arith
]
