-- ===== src/Ledger/Settled.antt =====
-- The engine's trades and the job that looks for their payments.
use multi_trade_platform.Base.{
  ℕ, ◌+◌, ◌*◌, ◌^◌, ◌≡◌, refl, ap, ◌∙◌, arith, Bool, true, false, ◌&&◌, ◌||◌, List, [], ◌∷◌, ◌++◌,
  some, ◌==◌, find_row, Bool-cases, inl, inr,
}
use multi_trade_platform.Decimal.BigFloat.{NumText, format}
use multi_trade_platform.Decimal.Exact.{Fits, column}
use multi_trade_platform.Decimal.Amount.{mul_product, format-product}
use multi_trade_platform.Store.{Db, Wallet, WalletTransaction, TxType, Description, Order, Trade}
use multi_trade_platform.Wallet.Repository.{of_user, at_version, set_balance}
use multi_trade_platform.Jobs.Reconciliation.{default_precision}
use multi_trade_platform.Jobs.Settlement.{cost_text, matches_fill, any_transaction, any_wallet}
use multi_trade_platform.Matching.Executor.Settlement.{settled}

pub cost_text-column :
    (t : Trade) (c : ℕ)
    → t.price * t.quantity ≡ c * 10 ^ 8
    → Fits default_precision (70 * c + 1)
    → cost_text t ≡ column c
unfolding cost_text
cost_text-column t c exact fits =
    ap format (mul_product default_precision t.price t.quantity)
    ∙ format-product default_precision 0 t.price t.quantity c exact (omega (arith, fits))

or_mono :
    (a b c d : Bool)
    → (a ≡ true → c ≡ true)
    → (b ≡ true → d ≡ true)
    → (a || b) ≡ true
    → (c || d) ≡ true
or_mono true b c d left right h = let done = left refl in rw done refl
or_mono false true true d left right h = refl
or_mono false true false d left right h = right refl
or_mono false false c d left right h = absurd (ground arith)

and_mono : (a b c : Bool) → (b ≡ true → c ≡ true) → (a && b) ≡ true → (a && c) ≡ true
and_mono true b c right h = right h
and_mono false b c right h = h

module _ (mentions : ℕ → Description → Bool) (kind : TxType) (cost : NumText) (order_id : ℕ) where
  pub any_transaction-append :
      (wallet_id : ℕ) (ts us : List WalletTransaction)
      → any_transaction mentions kind cost order_id wallet_id ts ≡ true
      → any_transaction mentions kind cost order_id wallet_id (ts ++ us) ≡ true
  unfolding any_transaction
  any_transaction-append wallet_id [] us found = absurd (ground arith)
  any_transaction-append wallet_id (t ∷ ts) us found =
      or_mono _ _ _ _ (λ h. h) (any_transaction-append wallet_id ts us) found

  pub any_transaction_last :
      (wallet_id : ℕ) (ts : List WalletTransaction) (t : WalletTransaction)
      → matches_fill mentions kind cost order_id wallet_id t ≡ true
      → any_transaction mentions kind cost order_id wallet_id (ts ++ t ∷ []) ≡ true
  unfolding any_transaction
  any_transaction_last wallet_id [] t found = rw found refl
  any_transaction_last wallet_id (u ∷ ts) t found =
      elim (Bool-cases (matches_fill mentions kind cost order_id wallet_id u)) [
        | inl h ↦ rw h refl
        | inr h ↦ rw h (any_transaction_last wallet_id ts t found)
      ]

  any_wallet-append :
      (user_id : ℕ) (xs : List Wallet) (ts us : List WalletTransaction)
      → any_wallet mentions user_id kind cost order_id xs ts ≡ true
      → any_wallet mentions user_id kind cost order_id xs (ts ++ us) ≡ true
  unfolding any_wallet
  any_wallet-append user_id [] ts us found = absurd (ground arith)
  any_wallet-append user_id (x ∷ xs) ts us found =
      or_mono _ _ _ _ (and_mono (x.user_id == user_id) _ _ (any_transaction-append x.id ts us))
        (any_wallet-append user_id xs ts us) found

  -- The transaction that was recorded last, for a wallet that is there.
  pub any_wallet_last :
      (user_id : ℕ) (xs : List Wallet) (x : Wallet) (ts : List WalletTransaction)
      → find_row (of_user user_id) xs ≡ some x
      → any_transaction mentions kind cost order_id x.id ts ≡ true
      → any_wallet mentions user_id kind cost order_id xs ts ≡ true
  unfolding any_wallet
  any_wallet_last user_id [] x ts there found = absurd (ground arith)
  any_wallet_last user_id (y ∷ xs) x ts there found = elim (Bool-cases (y.user_id == user_id)) [
    | inl h ↦ let same : y ≡ x = ground arith in rw (h, same, found) refl
    | inr h ↦ rw h (any_wallet_last user_id xs x ts (ground arith) found)
  ]

  -- The query looks at no balance.
  pub any_wallet-set_balance :
      (user_id id version n : ℕ) (xs : List Wallet) (ts : List WalletTransaction)
      → any_wallet mentions user_id kind cost order_id (set_balance id version n xs) ts
        ≡ any_wallet mentions user_id kind cost order_id xs ts
  unfolding any_wallet
  any_wallet-set_balance user_id id version n [] ts = refl
  any_wallet-set_balance user_id id version n (x ∷ xs) ts =
      let rest = any_wallet-set_balance user_id id version n xs ts in
      elim (Bool-cases (at_version id version x)) [
        | inl h ↦ rw (h, rest) refl
        | inr h ↦ rw (h, rest) refl
      ]

module _ (mentions : ℕ → Description → Bool) where
  -- Both payments of a trade are there.
  pub record IsPaid (db : Db) (t : Trade) : Type 0 where
    pub buyer :
        any_wallet mentions t.buyer_id TxType.withdrawal
          (cost_text t)
          t.buy_order_id
          db.wallets
          db.wallet_transactions
        ≡ true
    pub seller :
        any_wallet mentions t.seller_id TxType.deposit
          (cost_text t)
          t.sell_order_id
          db.wallets
          db.wallet_transactions
        ≡ true

  unfoldable pub AllPaid : Db → List Trade → Type 0
  AllPaid db [] = Unit {0}
  AllPaid db (t ∷ ts) = IsPaid db t × AllPaid db ts

  pub AllPaid-append :
      (db : Db) (ts : List Trade) (t : Trade)
      → AllPaid db ts
      → IsPaid db t
      → AllPaid db (ts ++ t ∷ [])
  unfolding AllPaid
  AllPaid-append db [] t all one = (one, tt)
  AllPaid-append db (u ∷ ts) t all one = (all.0, AllPaid-append db ts t all.1 one)

  -- What the tables of a trade keep.
  module _ (db : Db) (b s : Order) (x y : Wallet) (q p c : ℕ) (t : Trade)
      (paid earned : WalletTransaction) where
    any_wallet-settled :
        (user_id : ℕ) (kind : TxType) (cost : NumText) (order_id : ℕ)
        → any_wallet mentions user_id kind cost order_id db.wallets db.wallet_transactions ≡ true
        → let db' = settled db b s x y q p c t paid earned in
          any_wallet mentions user_id kind cost order_id db'.wallets db'.wallet_transactions ≡ true
    any_wallet-settled user_id kind cost order_id found =
        any_wallet-set_balance mentions kind cost order_id user_id y.id y.version _ _ _
        ∙ any_wallet-set_balance mentions kind cost order_id user_id x.id x.version _ _ _
        ∙ any_wallet-append mentions kind cost order_id user_id db.wallets _ (earned ∷ [])
            (any_wallet-append mentions kind cost order_id user_id db.wallets _ (paid ∷ []) found)

    pub settled-AllPaid :
        (ts : List Trade) → AllPaid db ts → AllPaid (settled db b s x y q p c t paid earned) ts
    unfolding AllPaid
    settled-AllPaid [] all = tt
    settled-AllPaid (u ∷ ts) all = (
      record {
        buyer =
            any_wallet-settled u.buyer_id TxType.withdrawal (cost_text u) u.buy_order_id
              all.0.buyer;
        seller =
            any_wallet-settled u.seller_id TxType.deposit (cost_text u) u.sell_order_id
              all.0.seller;
      },
      settled-AllPaid ts all.1,
    )
