-- ===== src/Http.antt =====
-- What the HTTP handlers have in common: the bodies that they write, the number of a path, and the
-- answer made of what a service returns.
pub mod Wallets
pub mod Orders
pub mod Assets
pub mod Accounts
pub mod Admin
pub mod Reading
pub mod Keeps
pub mod Refusals
pub mod AssetRefusals
pub mod Gate
pub mod Access
pub mod LowIds
pub mod Routes
use Prim.Native.String.{String}
use multi_trade_platform.Base.{
  ℕ, zero, suc, List, [], ◌∷◌, ◌++◌, Option, none, some, Result, ok, err,
}
use multi_trade_platform.Base.Int.{ℤ, pos, negsuc}
use multi_trade_platform.Store.{Error, Order, Wallet, WalletTransaction, User, Asset, AuditLog}
use multi_trade_platform.Wallet.{UpdatedWallet, TransactionPage}
use multi_trade_platform.Order.Service.{OrderPage}
use multi_trade_platform.Auth.Token.{TokenPair}
use multi_trade_platform.Admin.{UserPage, SystemHealth}

-- The text of a failure: one of the handler's own, err.Error() of a service's error, or that of the
-- binding.
pub data FailureText : Type 0 where
  fixed : String → FailureText
  of_error : Error → FailureText
  of_binding : FailureText

-- What AuditLogs shows: the page and its size are those of the query.
pub record LogPage : Type 0 where
  pub data_rows : List AuditLog
  pub total : ℕ
  pub page : ℤ
  pub page_size : ℤ
  pub total_pages : ℤ

-- gin.H{"error": ...} or what a handler answers with. The number of rows beside a list is its length.
pub data Body : Type 0 where
  failure : FailureText → Body
  order_body : Order → Body
  orders_body : OrderPage → Body
  wallet_body : Wallet → Body
  moved_body : UpdatedWallet → WalletTransaction → Body
  transactions_body : TransactionPage → Body
  asset_body : Asset → Body
  assets_body : List Asset → Body
  session_body : User → TokenPair → Body
  tokens_body : TokenPair → Body
  me_body : Option ℕ → Option String → Body
  user_body : User → Body
  users_body : UserPage → Body
  health_body : SystemHealth → Body
  logs_body : LogPage → Body
  counted_body : ℕ → Body

-- One call of c.JSON, or an abort with a status and no body.
pub record Reply : Type 0 where
  pub status : ℕ
  pub body : Option Body

abbrev pub reply : ℕ → Body → Reply
reply status body = record { status = status; body = some body }

abbrev pub refuse : ℕ → String → Reply
refuse status text = reply status (failure (fixed text))

abbrev pub refuse_with : ℕ → Error → Reply
refuse_with status e = reply status (failure (of_error e))

-- mustUserID: what the middleware has put into the context, or 0.
abbrev pub must_user_id : Option ℕ → ℕ
must_user_id none = 0
must_user_id (some id) = id

-- What a call of a service does to the state S, and what it returns.
abbrev pub Call : Type 0 → Type 0 → Type 0
Call S A = S → Result Error A × S

-- A handler: the bodies that it writes, in order, and the state that it leaves.
abbrev pub Handler : Type 0 → Type 0
Handler S = S → List Reply × S

-- parseIDParam, of what strconv.ParseInt makes of the text: a body that it writes, and the number that it
-- returns with a nil error. A number below 1 is written as a failure and returned as 0 with ParseInt's own
-- error, which is nil.
unfoldable pub parse_id_param : Option ℤ → List Reply × Option ℕ
parse_id_param none = (refuse 400 "invalid id" ∷ [], none)
parse_id_param (some (negsuc n)) = (refuse 400 "invalid id" ∷ [], some 0)
parse_id_param (some (pos zero)) = (refuse 400 "invalid id" ∷ [], some 0)
parse_id_param (some (pos (suc n))) = ([], some (suc n))

module _ {S : Type 0} where
  abbrev pub after_id : List Reply × Option ℕ → (ℕ → Handler S) → Handler S
  after_id (written, none) h s = (written, s)
  after_id (written, some id) h s = let (rest, s') = h id s in (written ++ rest, s')

  -- The handler goes on unless parseIDParam returns an error.
  abbrev pub with_path_id : Option ℤ → (ℕ → Handler S) → Handler S
  with_path_id param h s = after_id (parse_id_param param) h s

  -- ShouldBindJSON: what the body of the request is bound to, if it has the form of the input.
  abbrev pub bound : {A : Type 0} → Option A → (A → Handler S) → Handler S
  bound none h s = (reply 400 (failure of_binding) ∷ [], s)
  bound (some input) h s = h input s

  abbrev pub answer :
      {A : Type 0} → (A → Reply) → (Error → Reply) → Result Error A × S → List Reply × S
  answer done failed (ok a, s) = (done a ∷ [], s)
  answer done failed (err e, s) = (failed e ∷ [], s)

  -- The call of the service, and the one body that is written for what it returns.
  abbrev pub respond_with : {A : Type 0} → (A → Reply) → (Error → Reply) → Call S A → Handler S
  respond_with done failed call s = answer done failed (call s)
