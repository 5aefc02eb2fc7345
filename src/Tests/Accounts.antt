-- ===== src/Tests/Accounts.antt =====
-- Registration, login, tokens and suspension at concrete tables, with a signature that only traders
-- get and passwords that are stored as they are.
use Prim.Native.String.{String}
use text.Mathlib.Text.{◌==◌ as str_eq}
use text.Mathlib.TextEquality.{eq_iff}
use mathlib.Core.List.{Perm}
use multi_trade_platform.Base.{
  ℕ, ◌+◌, ◌*◌, ◌≡◌, ◌≢◌, refl, arith, Bool, true, List, [], ◌∷◌, ◌++◌, Option, none, some, ok, err,
  leb, ◌==◌, if◌then◌else◌, find_row, select,
}
use multi_trade_platform.Base.Newest.{IsNewestFirst}
use multi_trade_platform.Store.{World, Error, User, statement, ◌>>=◌, ◌>>◌}
use multi_trade_platform.User
use multi_trade_platform.User.{
  create_user, get_user_by_email, get_user_by_id, with_email, with_id, set_status,
}
use multi_trade_platform.User.Status
use multi_trade_platform.User.Emails.{HasEmails}
use multi_trade_platform.Wallet.{create_wallet_for_user}
use multi_trade_platform.Wallet.Repository.{create_wallet}
use multi_trade_platform.Auth.Token.{
  Crypto, IsCrypto, JwtService, Claims, TokenType, access, refresh, TokenPair, Parsed, parsed,
  parse_expired, parse_failed, generate_token, generate_token_pair, numeric_date,
}
use multi_trade_platform.Auth.Service.{
  RegisterRequest, LoginRequest, register, login, refresh_tokens,
}
use multi_trade_platform.Auth.Middleware.{auth_middleware, bearer, authenticated}
use multi_trade_platform.Auth.Laws.{login-ok}
use multi_trade_platform.Auth.Entry.{login-register, auth_middleware_access, refresh_tokens_renews}
use multi_trade_platform.Audit
use multi_trade_platform.Audit.{IsLogged}
use multi_trade_platform.Admin.{update_user_status, list_users}
use multi_trade_platform.Admin.Laws.{suspended_cannot_login}
use multi_trade_platform.Admin.Pages.{pages, users_of, pages_of, pages-list_users}
use multi_trade_platform.Tests.Data.{world, user_1, user_2}

abbrev kind_number : TokenType → ℕ
kind_number access = 0
kind_number refresh = 1

abbrev kind_of : ℕ → TokenType
kind_of n = if n == 0 then access else refresh

abbrev sign : Claims → String → Option (List ℕ)
sign c secret =
    if str_eq c.role "trader"
    then some (c.user_id ∷ kind_number c.token_type ∷ c.issued_at ∷ c.expires_at ∷ [])
    else none

abbrev claims : ℕ → ℕ → ℕ → ℕ → Claims
claims id kind issued expires = record {
  user_id = id;
  role = "trader";
  token_type = kind_of kind;
  issued_at = issued;
  expires_at = expires;
}

abbrev parse_signed : List ℕ → (Bool → Option String) → ℕ → Parsed
parse_signed (id ∷ kind ∷ issued ∷ expires ∷ []) key now =
    if leb (expires * 1000000000) now
    then parse_expired
    else parsed (claims id kind issued expires) true
parse_signed _ key now = parse_failed

abbrev pub crypto : Crypto
crypto = record {
  signed_string = sign;
  parse_with_claims = parse_signed;
  generate_from_password = λ salt password. some password;
  compare_hash_and_password = str_eq;
}

kind_back : (k : TokenType) → kind_of (kind_number k) ≡ k
kind_back access = refl
kind_back refresh = refl

crypto-IsCrypto : IsCrypto crypto
crypto-IsCrypto = record {
  parses = λ c secret t key now signed keyed fresh.
      let back = kind_back c.token_type in let role = eq_iff c.role "trader" in ground arith;
  expires = λ c secret t key now signed keyed late. ground arith;
  compares = λ salt password hash e. let same = eq_iff hash password in ground arith;
}

abbrev pub jwt : JwtService
jwt = record { secret = "secret"; access_expiry = 900000000000; refresh_expiry = 604800000000000 }

abbrev pair_for : ℕ → ℕ → ℕ → TokenPair
pair_for id now later = record {
  access_token = id ∷ 0 ∷ numeric_date now ∷ numeric_date (now + 900000000000) ∷ [];
  refresh_token = id ∷ 1 ∷ numeric_date later ∷ numeric_date (later + 604800000000000) ∷ [];
}

abbrev ann : LoginRequest
ann = record { email = "ann@example.org"; password = "hash of ann" }

login-ok_example :
    (find_row (with_email "ann@example.org") world.db.users ≡ some user_1)
    × (str_eq "hash of ann" "hash of ann" ≡ true)
    × (user_1.status ≢ Status.suspended)
    × (generate_token_pair crypto jwt 5 6 1 "trader" ≡ ok (pair_for 1 5 6))
    × (world.db ≡ world.db)
unfolding login get_user_by_email statement ◌>>=◌ ◌>>◌ generate_token_pair generate_token
login-ok_example = login-ok crypto jwt 5 6 ann world user_1 (pair_for 1 5 6) world refl

users-HasEmails : HasEmails world.db.users
users-HasEmails = (refl, (refl, tt))

abbrev cat : RegisterRequest
cat = record { email = "cat@example.org"; password = "meow meow"; role = "trader" }

-- Registering with the email of user 1.
abbrev ann_again : RegisterRequest
ann_again = record { email = "ann@example.org"; password = "another"; role = "trader" }

abbrev user_3 : User
user_3 = record user_1 {
  id = 100;
  email = "cat@example.org";
  password_hash = "meow meow";
  created_at = 100;
}

login-register_example :
    (login crypto jwt 7 8
      (record { email = "cat@example.org"; password = "meow meow" })
      (register crypto jwt 5 6 0 cat world).1).0
    ≡ ok (user_3, pair_for 100 7 8)
unfolding register create_user get_user_by_email statement ◌>>=◌ ◌>>◌ generate_token_pair
    generate_token create_wallet create_wallet_for_user
login-register_example =
    login-register crypto jwt 5 6 0 cat world user_3 (pair_for 100 5 6)
      (register crypto jwt 5 6 0 cat world).1 7 8 (pair_for 100 7 8) crypto-IsCrypto refl refl refl

auth_middleware_access_example :
    auth_middleware crypto jwt 10 (bearer ++ b' ' ∷ 1 ∷ 0 ∷ 0 ∷ 900 ∷ []) ≡ authenticated 1 "trader"
unfolding generate_token_pair generate_token
auth_middleware_access_example =
    auth_middleware_access crypto jwt 5 6 1 "trader" (pair_for 1 5 6) 10 crypto-IsCrypto refl
      (omega arith)

-- User 1, suspended.
abbrev suspended_1 : User
suspended_1 = record user_1 { status = "SUSPENDED" }

abbrev suspended_world : World
suspended_world = record world { db = record world.db { users = suspended_1 ∷ user_2 ∷ [] } }

refresh_tokens_renews_example :
    refresh_tokens crypto jwt 10 11 (1 ∷ 1 ∷ 0 ∷ 604800 ∷ []) suspended_world
    ≡ (ok (pair_for 1 10 11), suspended_world)
unfolding generate_token_pair generate_token
refresh_tokens_renews_example =
    refresh_tokens_renews crypto jwt 5 6 1 "trader" (pair_for 1 5 6) 10 11 suspended_world
      suspended_1 (pair_for 1 10 11) crypto-IsCrypto refl (omega arith) refl refl refl

suspended_cannot_login_example :
    (login crypto jwt 10 11 ann (update_user_status 2 1 "SUSPENDED" world).1).0
    ≡ err Error.account_suspended
unfolding update_user_status User.update_user_status Audit.create statement ◌>>=◌ ◌>>◌
suspended_cannot_login_example =
    suspended_cannot_login crypto jwt 10 11 2 1 "hash of ann" world suspended_1
      (update_user_status 2 1 "SUSPENDED" world).1 users-HasEmails refl refl refl

pages-list_users_example :
    let listed_users =
      pages
        (λ i. users_of (list_users "" "ACTIVE" i 1 world).0)
        (pages_of (list_users "" "ACTIVE" 1 1 world).0) in
    Perm listed_users (select (User.matches "" "ACTIVE") world.db.users)
    × IsNewestFirst User.created_at listed_users
pages-list_users_example = pages-list_users "" "ACTIVE" 1 world refl
