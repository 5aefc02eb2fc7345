-- ===== src/Auth/Service.antt =====
-- internal/auth/service: registration, login and new tokens. The wallets of new users are those of
-- internal/wallet. The handler has checked the form of the input.
use Prim.Native.String.{String}
use text.Mathlib.Text.{◌==◌ as str_eq}
use multi_trade_platform.Base.{
  ℕ, Bool, true, false, not, ◌||◌, List, Result, ok, err, if◌then◌else◌,
}
use multi_trade_platform.Store.{
  M, pure, fail, or_fail, fail_if, from_result, attempt, ◌>>=◌, ◌>>◌, Error, User,
}
use multi_trade_platform.Store.Error.{
  user_not_found, invalid_role, email_already_exists, invalid_credentials, account_suspended,
  token_invalid, hash_failed,
}
use multi_trade_platform.User.{create_user, get_user_by_email, get_user_by_id}
use multi_trade_platform.User.Role
use multi_trade_platform.User.Status
use multi_trade_platform.Wallet.{create_wallet_for_user}
use multi_trade_platform.Auth.Token.{
  Crypto, JwtService, TokenPair, TokenType, access, refresh, generate_token_pair, parse_token,
}

pub record RegisterRequest : Type 0 where
  pub email : String
  pub password : String
  pub role : String

pub record LoginRequest : Type 0 where
  pub email : String
  pub password : String

-- validRoles
abbrev pub is_valid_role : String → Bool
is_valid_role role =
    str_eq role Role.admin
    || str_eq role Role.broker
    || str_eq role Role.trader
    || str_eq role Role.support

-- errors.Is(err, ErrUserNotFound)
abbrev pub is_not_found : Error → Bool
is_not_found user_not_found = true
is_not_found e = false

-- Register goes on only if the lookup finds no user.
abbrev pub must_be_new : Result Error User → M (Unit {0})
must_be_new (ok u) = fail email_already_exists
must_be_new (err e) = fail_if (not (is_not_found e)) e

-- Login and RefreshTokens have an error of their own for a user that is not found.
abbrev pub known_or : Error → Result Error User → M User
known_or missing (ok u) = pure u
known_or missing (err e) = fail (if is_not_found e then missing else e)

abbrev pub is_refresh : TokenType → Bool
is_refresh refresh = true
is_refresh access = false

-- The times at which the clock is read for the two tokens of a pair.
module _ (crypto : Crypto) (s : JwtService) (now later : ℕ) where
  unfoldable pub register : ℕ → RegisterRequest → M (User × TokenPair)
  register salt input = do
    fail_if (not (is_valid_role input.role)) invalid_role
    found ← attempt (get_user_by_email input.email)
    must_be_new found
    hash ← or_fail (crypto.generate_from_password salt input.password) hash_failed
    created ← create_user input.email hash input.role
    tokens ← from_result (generate_token_pair crypto s now later created.id created.role)
    attempt (create_wallet_for_user created.id)
    pure (created, tokens)

  unfoldable pub login : LoginRequest → M (User × TokenPair)
  login input = do
    found ← attempt (get_user_by_email input.email)
    u ← known_or invalid_credentials found
    fail_if (not (crypto.compare_hash_and_password u.password_hash input.password))
        invalid_credentials
    fail_if (str_eq u.status Status.suspended) account_suspended
    tokens ← from_result (generate_token_pair crypto s now later u.id u.role)
    pure (u, tokens)

  unfoldable pub refresh_tokens : List ℕ → M TokenPair
  refresh_tokens token = do
    claims ← from_result (parse_token crypto s now token)
    fail_if (not (is_refresh claims.token_type)) token_invalid
    found ← attempt (get_user_by_id claims.user_id)
    u ← known_or token_invalid found
    from_result (generate_token_pair crypto s now later u.id u.role)
