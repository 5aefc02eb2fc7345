-- ===== src/Http/Accounts.antt =====
-- auth_handler.go: the handlers of /auth.
use Prim.Native.String.{String}
use multi_trade_platform.Base.{ℕ, List, [], ◌∷◌, Option}
use multi_trade_platform.Store.{World, Error, User}
use multi_trade_platform.Auth.Token.{Crypto, JwtService, TokenPair}
use multi_trade_platform.Auth.Service.{
  RegisterRequest, LoginRequest, register, login, refresh_tokens,
}
use multi_trade_platform.Http.{
  Reply, Handler, reply, refuse, refuse_with, bound, respond_with, session_body, tokens_body,
  me_body,
}

abbrev pub register_failure : Error → Reply
register_failure Error.email_already_exists = refuse_with 409 Error.email_already_exists
register_failure Error.invalid_role =
    refuse 400 "role must be one of: admin, broker, trader, support"
register_failure e = refuse 500 "registration failed"

abbrev pub login_failure : Error → Reply
login_failure Error.invalid_credentials = refuse_with 401 Error.invalid_credentials
login_failure Error.account_suspended = refuse_with 403 Error.account_suspended
login_failure e = refuse 500 "login failed"

abbrev pub refresh_failure : Error → Reply
refresh_failure Error.token_invalid = refuse 401 "invalid refresh token"
refresh_failure Error.user_not_found = refuse 401 "invalid refresh token"
refresh_failure e = refuse 500 "token refresh failed"

abbrev pub session_reply : ℕ → User × TokenPair → Reply
session_reply status (u, tokens) = reply status (session_body u tokens)

module _ (crypto : Crypto) (s : JwtService) (now later : ℕ) where
  unfoldable pub register_handler : ℕ → Option RegisterRequest → Handler World
  register_handler salt body w =
      bound body
        (λ input.
          respond_with (session_reply 201) register_failure
            (register crypto s now later salt input))
        w

  unfoldable pub login_handler : Option LoginRequest → Handler World
  login_handler body w =
      bound body
        (λ input. respond_with (session_reply 200) login_failure (login crypto s now later input)) w

  unfoldable pub refresh_handler : Option (List ℕ) → Handler World
  refresh_handler body w =
      bound body
        (λ token.
          respond_with (λ p. reply 200 (tokens_body p)) refresh_failure
            (refresh_tokens crypto s now later token))
        w

-- Me: what the middleware has put into the context.
unfoldable pub me_handler : Option ℕ → Option String → Handler World
me_handler user role w = (reply 200 (me_body user role) ∷ [], w)
