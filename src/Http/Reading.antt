-- ===== src/Http/Reading.antt =====
-- The calls of the services that only read.
use Prim.Native.String.{String}
use multi_trade_platform.Base.{ℕ, List, Option, Result, ok, err, refl}
use multi_trade_platform.Store.{Error, User, ◌>>=◌}
use multi_trade_platform.Store.Reading.{
  IsReading, or_fail-IsReading, fail_if-IsReading, from_result-IsReading, attempt-IsReading,
  statement-IsReading, >>=-IsReading, >>-IsReading,
}
use multi_trade_platform.Order.Repository.{get_by_id, list_by_user, count_by_user}
use multi_trade_platform.Order.Service.{get_order, list_orders}
use multi_trade_platform.Order.Service.Laws.{get_by_user_id-IsReading}
use multi_trade_platform.Wallet.Repository.{list_transactions, count_transactions}
use multi_trade_platform.Wallet.{get_wallet, list_user_transactions}
use multi_trade_platform.User
use multi_trade_platform.User.Laws.{get_user_by_email-IsReading, get_user_by_id-IsReading}
use multi_trade_platform.Audit.{list_logs, count}
use multi_trade_platform.Admin.{list_users, list_audit_logs}
use multi_trade_platform.Auth.Token.{Crypto, JwtService}
use multi_trade_platform.Auth.Service.{LoginRequest, login, refresh_tokens, known_or}

pub get_wallet-IsReading : (user_id : ℕ) → IsReading (get_wallet user_id)
unfolding get_wallet
get_wallet-IsReading user_id = get_by_user_id-IsReading user_id

list_transactions-IsReading : (id limit offset : ℕ) → IsReading (list_transactions id limit offset)
unfolding list_transactions ◌>>=◌
list_transactions-IsReading id limit offset = statement-IsReading _ (λ w. refl)

count_transactions-IsReading : (id : ℕ) → IsReading (count_transactions id)
unfolding count_transactions ◌>>=◌
count_transactions-IsReading id = statement-IsReading _ (λ w. refl)

pub list_user_transactions-IsReading :
    (user_id page size : ℕ) → IsReading (list_user_transactions user_id page size)
unfolding list_user_transactions
list_user_transactions-IsReading user_id page size =
    >>=-IsReading _ _ (get_by_user_id-IsReading user_id) λ x.
      >>=-IsReading _ _ (list_transactions-IsReading x.id _ _)
        λ ts. >>=-IsReading _ _ (count_transactions-IsReading x.id) λ n w. refl

get_by_id-IsReading : (id : ℕ) → IsReading (get_by_id id)
unfolding get_by_id ◌>>=◌
get_by_id-IsReading id = statement-IsReading _ (λ w. or_fail-IsReading _ _ w)

pub get_order-IsReading : (user_id id : ℕ) → IsReading (get_order user_id id)
unfolding get_order
get_order-IsReading user_id id =
    >>=-IsReading _ _ (get_by_id-IsReading id)
      λ o. >>-IsReading _ _ (fail_if-IsReading _ _) (λ w. refl)

list_by_user-IsReading : (user_id limit offset : ℕ) → IsReading (list_by_user user_id limit offset)
unfolding list_by_user ◌>>=◌
list_by_user-IsReading user_id limit offset = statement-IsReading _ (λ w. refl)

count_by_user-IsReading : (user_id : ℕ) → IsReading (count_by_user user_id)
unfolding count_by_user ◌>>=◌
count_by_user-IsReading user_id = statement-IsReading _ (λ w. refl)

pub list_orders-IsReading : (user_id page size : ℕ) → IsReading (list_orders user_id page size)
unfolding list_orders
list_orders-IsReading user_id page size =
    >>=-IsReading _ _ (list_by_user-IsReading user_id _ _)
      λ os. >>=-IsReading _ _ (count_by_user-IsReading user_id) λ n w. refl

rows-IsReading :
    (role status : String) (limit offset : ℕ) → IsReading (User.list_users role status limit offset)
unfolding User.list_users ◌>>=◌
rows-IsReading role status limit offset = statement-IsReading _ (λ w. refl)

count_users-IsReading : (role status : String) → IsReading (User.count_users role status)
unfolding User.count_users ◌>>=◌
count_users-IsReading role status = statement-IsReading _ (λ w. refl)

pub list_users-IsReading :
    (role status : String) (page size : ℕ) → IsReading (list_users role status page size)
unfolding list_users
list_users-IsReading role status page size =
    >>=-IsReading _ _ (rows-IsReading role status _ _)
      λ us. >>=-IsReading _ _ (count_users-IsReading role status) λ n w. refl

list_logs-IsReading :
    (user_id : Option ℕ) (action : String) (limit offset : ℕ)
    → IsReading (list_logs user_id action limit offset)
unfolding list_logs ◌>>=◌
list_logs-IsReading user_id action limit offset = statement-IsReading _ (λ w. refl)

count-IsReading : (user_id : Option ℕ) (action : String) → IsReading (count user_id action)
unfolding count ◌>>=◌
count-IsReading user_id action = statement-IsReading _ (λ w. refl)

pub list_audit_logs-IsReading :
    (user_id : Option ℕ) (action : String) (page size : ℕ)
    → IsReading (list_audit_logs user_id action page size)
unfolding list_audit_logs
list_audit_logs-IsReading user_id action page size =
    >>=-IsReading _ _ (list_logs-IsReading user_id action _ _)
      λ ls. >>=-IsReading _ _ (count-IsReading user_id action) λ n w. refl

known_or-IsReading : (missing : Error) (r : Result Error User) → IsReading (known_or missing r)
known_or-IsReading missing (ok u) w = refl
known_or-IsReading missing (err e) w = refl

module _ (crypto : Crypto) (s : JwtService) (now later : ℕ) where
  pub login-IsReading : (input : LoginRequest) → IsReading (login crypto s now later input)
  unfolding login
  login-IsReading input =
      >>=-IsReading _ _
        (attempt-IsReading (User.get_user_by_email input.email)
          (get_user_by_email-IsReading input.email))
        λ r. >>=-IsReading _ _ (known_or-IsReading Error.invalid_credentials r) λ u.
          >>-IsReading _ _ (fail_if-IsReading _ _) (
            >>-IsReading _ _ (fail_if-IsReading _ _)
              (>>=-IsReading _ _ (from_result-IsReading _) λ p w. refl))

  pub refresh_tokens-IsReading :
      (token : List ℕ) → IsReading (refresh_tokens crypto s now later token)
  unfolding refresh_tokens
  refresh_tokens-IsReading token = >>=-IsReading _ _ (from_result-IsReading _) λ c.
      >>-IsReading _ _ (fail_if-IsReading _ _) (
        >>=-IsReading _ _
          (attempt-IsReading (User.get_user_by_id c.user_id) (get_user_by_id-IsReading c.user_id))
          λ r.
            >>=-IsReading _ _ (known_or-IsReading Error.token_invalid r)
              λ u. from_result-IsReading _)
