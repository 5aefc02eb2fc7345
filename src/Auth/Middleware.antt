-- ===== src/Auth/Middleware.antt =====
-- internal/middleware/auth.go and rbac.go: what a request needs to pass.
use Prim.Native.String.{String}
use text.Mathlib.Text.{◌==◌ as str_eq}
use multi_trade_platform.Base.{
  ℕ, ◌+◌, Bool, true, false, ◌&&◌, ◌||◌, List, [], ◌∷◌, Option, none, some, Result, ok, err, ◌==◌,
  leb, if◌then◌else◌,
}
use multi_trade_platform.Store.{Error}
use multi_trade_platform.Auth.Token.{
  Crypto, JwtService, TokenType, access, refresh, Claims, parse_token,
}

-- The answer of a middleware that aborts, and what the next handler finds in the context.
pub data Access : Type 0 where
  header_missing header_malformed token_refused token_out_of_date access_token_required : Access
  authenticated : ℕ → String → Access

-- strings.SplitN(header, " ", 2), of which there are two parts or one.
unfoldable pub split_at_space : List ℕ → Option (List ℕ × List ℕ)
split_at_space [] = none
split_at_space (b ∷ bs) =
    let rest = split_at_space bs in
    if b == b' '
    then some ([], bs)
    else elim rest [ none ↦ none | some (scheme, token) ↦ some (b ∷ scheme, token) ]

abbrev lower : ℕ → ℕ
lower b = if leb b'A' b && leb b b'Z' then b + 32 else b

-- strings.EqualFold; no letter of "Bearer" has a form outside ASCII.
abbrev pub equal_fold : List ℕ → List ℕ → Bool
equal_fold [] [] = true
equal_fold (x ∷ xs) (y ∷ ys) = lower x == lower y && equal_fold xs ys
equal_fold _ _ = false

abbrev pub bearer : List ℕ
bearer = b'B' ∷ b'e' ∷ b'a' ∷ b'r' ∷ b'e' ∷ b'r' ∷ []

abbrev pub for_access : TokenType → Claims → Access
for_access access c = authenticated c.user_id c.role
for_access refresh c = access_token_required

abbrev pub from_claims : Result Error Claims → Access
from_claims (ok c) = for_access c.token_type c
from_claims (err Error.token_expired) = token_out_of_date
from_claims (err e) = token_refused

module _ (crypto : Crypto) (s : JwtService) where
  abbrev pub from_parts : ℕ → Option (List ℕ × List ℕ) → Access
  from_parts now none = header_malformed
  from_parts now (some (scheme, token)) =
      if equal_fold scheme bearer
      then from_claims (parse_token crypto s now token)
      else header_malformed

  abbrev from_header : ℕ → List ℕ → Access
  from_header now [] = header_missing
  from_header now (b ∷ bs) = from_parts now (split_at_space (b ∷ bs))

  unfoldable pub auth_middleware : ℕ → List ℕ → Access
  auth_middleware now header = from_header now header

-- RBACMiddleware: the status with which it aborts, if it does. The role is a string or not there.
abbrev is_allowed : List String → String → Bool
is_allowed [] role = false
is_allowed (r ∷ rs) role = str_eq r role || is_allowed rs role

unfoldable pub rbac_middleware : List String → Option String → Option ℕ
rbac_middleware allowed none = some 401
rbac_middleware allowed (some role) = if is_allowed allowed role then none else some 403
