-- ===== src/Wallet/Repository/Effects.antt =====
-- What each statement of the wallet repository has done when it succeeds.
use multi_trade_platform.Base.{
  ℕ, ◌≡◌, refl, ap, arith, [], ◌∷◌, ◌++◌, Option, none, some, ok, find_row, Option-cases, inl, inr,
  ◌∙◌,
}
use multi_trade_platform.Base.Int.{pos}
use multi_trade_platform.Decimal.BigFloat.{NumText}
use multi_trade_platform.Decimal.Exact.{column}
use multi_trade_platform.Store.{
  ◌>>=◌, ◌>>◌, M, World, Wallet, WalletTransaction, TxType, TxStatus, Description, numeric,
  non_negative,
}
use multi_trade_platform.Store.Laws.{served, statement-ok, statement-cases, >>=-step}
use multi_trade_platform.Store.Numeric.{numeric-column_eq, non_negative-column_eq}
use multi_trade_platform.Wallet.Repository.{
  of_user, at_version, set_balance, get_by_user_id_for_update, update_balance, store_balance,
  insert_transaction, create_wallet, insert_wallet,
}

pub get_by_user_id_for_update-ok :
    (u : ℕ) (w : World) (x : Wallet) (w' : World)
    → get_by_user_id_for_update u w ≡ (ok x, w')
    → (find_row (of_user u) w.db.wallets ≡ some x) × (w'.db ≡ w.db)
unfolding get_by_user_id_for_update ◌>>=◌
get_by_user_id_for_update-ok u w x w' e = let done = statement-ok _ w x w' e in ground arith

store_balance-ok :
    (id version : ℕ) (text : NumText) (row : Option Wallet) (w : World) (a : Unit {0}) (w' : World)
    → store_balance id version text row w ≡ (ok a, w')
    → (n : ℕ) × (non_negative (numeric text) ≡ some n)
      × (w'.db ≡ record w.db { wallets = set_balance id version n w.db.wallets })
unfolding store_balance ◌>>=◌
store_balance-ok id version text none w a w' e = absurd (ground arith)
store_balance-ok id version text (some x) w a w' e =
    elim (Option-cases (non_negative (numeric text))) [
      | inl h ↦ absurd (ground arith)
      | inr (n, h) ↦ (n, h, ground arith)
    ]

pub update_balance-ok :
    (id version : ℕ) (text : NumText) (w : World) (a : Unit {0}) (w' : World)
    → update_balance id text version w ≡ (ok a, w')
    → (n : ℕ) × (non_negative (numeric text) ≡ some n)
      × (w'.db ≡ record w.db { wallets = set_balance id version n w.db.wallets })
unfolding update_balance ◌>>=◌
update_balance-ok id version text w a w' e =
    store_balance-ok id version text (find_row (at_version id version) w.db.wallets) (served w) a w'
      (statement-ok _ w a w' e)

-- The row that is inserted, but for its id.
pub record Inserts (wallet_id : ℕ) (amount : NumText) (kind : TxType) (d : Description)
    (t : WalletTransaction) : Type 0 where
  pub wallet : t.wallet_id ≡ wallet_id
  pub value : numeric amount ≡ some t.amount
  pub type : t.transaction_type ≡ kind
  pub state : t.status ≡ TxStatus.completed
  pub text : t.description ≡ d

pub insert_transaction-ok :
    (id : ℕ) (amount : NumText) (kind : TxType) (d : Description) (w : World)
    (t : WalletTransaction) (w' : World)
    → insert_transaction id amount kind d w ≡ (ok t, w')
    → Inserts id amount kind d t
      × (w'.db ≡ record w.db { wallet_transactions = w.db.wallet_transactions ++ t ∷ [] })
unfolding insert_transaction ◌>>=◌ ◌>>◌
insert_transaction-ok id amount kind d w t w' e =
    let done = statement-ok _ w t w' e in
    elim (Option-cases (numeric amount)) [
      | inl h ↦ absurd (ground arith)
      | inr (n, h) ↦ (
        record {
          wallet = ground arith;
          value = ground arith;
          type = ground arith;
          state = ground arith;
          text = ground arith;
        },
        ground arith,
      )
    ]

-- The same, for texts with eight places.
pub update_balance-ok_column :
    (id version m : ℕ) (text : NumText) (w : World) (a : Unit {0}) (w' : World)
    → text ≡ column m
    → update_balance id text version w ≡ (ok a, w')
    → w'.db ≡ record w.db { wallets = set_balance id version m w.db.wallets }
update_balance-ok_column id version m text w a w' eq e =
    let (n, written, db) = update_balance-ok id version text w a w' e in
    let same : n ≡ m = non_negative-column_eq m n (rw (← eq) written) in
    db ∙ ap (λ k. record w.db { wallets = set_balance id version k w.db.wallets }) same

-- A transaction of `m` units of 10^-8.
pub record Records (wallet_id m : ℕ) (kind : TxType) (d : Description) (t : WalletTransaction)
    : Type 0 where
  pub wallet : t.wallet_id ≡ wallet_id
  pub value : t.amount ≡ pos m
  pub type : t.transaction_type ≡ kind
  pub state : t.status ≡ TxStatus.completed
  pub text : t.description ≡ d

pub insert_transaction-ok_column :
    (id m : ℕ) (amount : NumText) (kind : TxType) (d : Description) (w : World)
    (t : WalletTransaction) (w' : World)
    → amount ≡ column m
    → insert_transaction id amount kind d w ≡ (ok t, w')
    → Records id m kind d t
      × (w'.db ≡ record w.db { wallet_transactions = w.db.wallet_transactions ++ t ∷ [] })
insert_transaction-ok_column id m amount kind d w t w' eq e =
    let (inserts, db) = insert_transaction-ok id amount kind d w t w' e in
    (
      record {
        wallet = inserts.wallet;
        value = numeric-column_eq m t.amount (rw (← eq) inserts.value);
        type = inserts.type;
        state = inserts.state;
        text = inserts.text;
      },
      db,
    )

module _ {ℓ} {P : Type ℓ} {B : Type 0} (w : World) {w' : World} {b : B} where
  -- The wallet that a locking read returns is the one that is there.
  pub get_by_user_id_for_update-step :
      (u : ℕ) (x : Wallet) (f : Wallet → M B)
      → find_row (of_user u) w.db.wallets ≡ some x
      → (get_by_user_id_for_update u >>= f) w ≡ (ok b, w')
      → ((w₁ : World) → w₁.db ≡ w.db → f x w₁ ≡ (ok b, w') → P)
      → P
  get_by_user_id_for_update-step u x f found e k = >>=-step _ _ e λ x' w₁ e₁ k₁.
      let (found', same) = get_by_user_id_for_update-ok u w x' w₁ e₁ in
      let same_row : x' ≡ x = ground arith in k w₁ same (rw (← same_row) k₁)

insert_wallet_users :
    (user_id : ℕ) (o : Option Wallet) (w : World)
    → (insert_wallet user_id o w).1.db.users ≡ w.db.users
unfolding insert_wallet ◌>>=◌ ◌>>◌
insert_wallet_users user_id none w = refl
insert_wallet_users user_id (some x) w = refl

-- A new wallet leaves the users as they were.
pub create_wallet_users :
    (user_id : ℕ) (w : World) → (create_wallet user_id w).1.db.users ≡ w.db.users
unfolding create_wallet ◌>>=◌
create_wallet_users user_id w =
    let query : M Wallet = λ v. insert_wallet user_id (find_row (of_user user_id) v.db.wallets) v in
    elim (statement-cases query w) [
      | inl failed ↦ rw failed refl
      | inr done ↦
          rw done (insert_wallet_users user_id (find_row (of_user user_id) w.db.wallets) (served w))
    ]
