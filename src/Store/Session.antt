-- ===== src/Store/Session.antt =====
-- A session: statements in order, each of which the database may fail to execute, and transactions.
-- `faults` is the schedule of failures, one entry for each statement that is sent; past its end
-- nothing fails. `serial` gives ids and times: sequences are not rolled back.
use multi_trade_platform.Base.{
  ℕ, suc, Bool, true, false, List, [], ◌∷◌, Option, none, some, Result, ok, err,
}
use multi_trade_platform.Store.Rows.{Db}

pub record World : Type 0 where
  pub db : Db
  pub faults : List Bool
  pub serial : ℕ

-- `db_failed` wraps what the driver reports: a lost connection, a timeout. `refused` is a statement
-- that breaks a constraint of its table, `duplicate_key` the unique symbol of an asset.
pub data Error : Type 0 where
  db_failed refused : Error
  invalid_amount wallet_not_found insufficient_balance version_conflict : Error
  order_not_found duplicate_idempotency_key order_not_owned order_not_cancellable : Error
  order_insufficient_funds order_insufficient_holding order_asset_not_active : Error
  invalid_price invalid_quantity asset_not_found asset_not_owned holding_not_found : Error
  buyer_cannot_pay : Error
  user_not_found invalid_role email_already_exists invalid_credentials account_suspended : Error
  token_invalid token_expired hash_failed sign_failed invalid_status : Error
  duplicate_key duplicate_symbol invalid_asset_data : Error

abbrev pub M : Type 0 → Type 0
M A = World → Result Error A × World

module _ {A : Type 0} where
  abbrev pub pure : A → M A
  pure a w = (ok a, w)

  abbrev pub fail : Error → M A
  fail e w = (err e, w)

  abbrev pub or_fail : Option A → Error → M A
  or_fail none e = fail e
  or_fail (some a) e = pure a

  -- One statement: it is executed, or the database fails and nothing changes.
  unfoldable pub statement : M A → M A
  statement m w = elim w.faults [
    | [] ↦ m w
    | f ∷ fs ↦ elim f [
      | true ↦ (err db_failed, record w { faults = fs })
      | false ↦ m (record w { faults = fs })
    ]
  ]

  -- A call whose error the caller looks at.
  abbrev pub attempt : M A → M (Result Error A)
  attempt m w = let (r, w') = m w in (ok r, w')

  abbrev pub from_result : Result Error A → M A
  from_result (ok a) = pure a
  from_result (err e) = fail e

infixl 5 ◌>>=◌ ◌>>◌
unfoldable pub ◌>>=◌ : {A B : Type 0} → M A → (A → M B) → M B
◌>>=◌ m f w = let (r, w') = m w in elim r [ ok a ↦ f a w' | err e ↦ fail e w' ]

unfoldable pub ◌>>◌ : {A B : Type 0} → M A → M B → M B
unfolding ◌>>=◌
m >> k = m >>= λ _. k

abbrev pub fail_if : Bool → Error → M (Unit {0})
fail_if true e = fail e
fail_if false e = pure tt

abbrev pub modify : (Db → Db) → M (Unit {0})
modify f w = (ok tt, record w { db = f w.db })

-- A value of a sequence.
abbrev pub next_serial : M ℕ
next_serial w = (ok w.serial, record w { serial = suc w.serial })

abbrev pub read_db : M Db
read_db w = (ok w.db, w)

module _ {A : Type 0} where
  -- COMMIT, or ROLLBACK to the tables `before`.
  unfoldable pub rollback : Db → Error → M A
  rollback before e w = (err e, record w { db = before })

  unfoldable pub commit : Db → A → M A
  unfolding statement rollback
  commit before a w =
      let (r, w') = statement (pure a) w in
      elim r [ ok b ↦ (ok b, w') | err e ↦ rollback before e w' ]

  finish : Db → Result Error A → M A
  unfolding commit
  finish before (ok a) = commit before a
  finish before (err e) = rollback before e

  -- `runTx`: BEGIN, the body, then COMMIT if it has no error.
  unfoldable pub run_tx : M A → M A
  unfolding finish
  run_tx body w =
      let (began, w₁) = statement (pure tt) w in
      elim began [ err e ↦ (err e, w₁) | ok _ ↦ let (r, w₂) = body w₁ in finish w₁.db r w₂ ]
