-- ===== src/Auth/Passed.antt =====
-- AuthMiddleware: what has let a request in.
use Prim.Native.String.{String}
use multi_trade_platform.Base.{
  ℕ, ◌≡◌, refl, ap, ◌∙◌, arith, true, List, [], ◌∷◌, ◌++◌, Option, none, some, Result, ok, err,
  ◌==◌, Bool-cases, Option-cases, inl, inr,
}
use multi_trade_platform.Store.{Error}
use multi_trade_platform.Auth.Token.{
  Crypto, JwtService, TokenType, access, refresh, Claims, parse_token,
}
use multi_trade_platform.Auth.Middleware.{
  Access, bearer, equal_fold, for_access, from_claims, from_parts, auth_middleware, split_at_space,
}

split_at_space-ok :
    (header scheme token : List ℕ)
    → split_at_space header ≡ some (scheme, token)
    → header ≡ scheme ++ b' ' ∷ token
unfolding split_at_space
split_at_space-ok [] scheme token e = absurd (ground arith)
split_at_space-ok (b ∷ bs) scheme token e = elim (Bool-cases (b == b' ')) [
  | inl space ↦
      let no_scheme : [] ≡ scheme = ground arith in
      let rest : bs ≡ token = ground arith in
      let is_space : b ≡ b' ' = ground arith in rw (is_space, rest, ← no_scheme) refl
  | inr other ↦ elim (Option-cases (split_at_space bs)) [
    | inl missing ↦ absurd (ground arith)
    | inr ((before, after), found) ↦
        let again = split_at_space-ok bs before after found in
        let first : b ∷ before ≡ scheme = ground arith in
        let rest : after ≡ token = ground arith in
        ap (λ r. b ∷ r) again
        ∙ ap (λ t. b ∷ before ++ b' ' ∷ t) rest
        ∙ ap (λ x. x ++ b' ' ∷ token) first
  ]
]

for_access-ok :
    (k : TokenType) (c : Claims) (user : ℕ) (role : String)
    → for_access k c ≡ Access.authenticated user role
    → (k ≡ access) × (c.user_id ≡ user) × (c.role ≡ role)
for_access-ok access c user role e = (refl, ground arith, ground arith)
for_access-ok refresh c user role e = absurd (ground arith)

from_claims-ok :
    (r : Result Error Claims) (user : ℕ) (role : String)
    → from_claims r ≡ Access.authenticated user role
    → (c : Claims) × (r ≡ ok c) × (c.token_type ≡ access) × (c.user_id ≡ user) × (c.role ≡ role)
from_claims-ok (ok c) user role e =
    let (kind, of_user, with_role) = for_access-ok c.token_type c user role e in
    (c, refl, kind, of_user, with_role)
from_claims-ok (err Error.token_expired) user role e = absurd (ground arith)
from_claims-ok (err x) user role e = absurd (ground arith)

module _ (crypto : Crypto) (s : JwtService) where
  -- The header of a request that is let in, and what its token says.
  unfoldable pub IsPassed : ℕ → List ℕ → ℕ → String → Type 0
  IsPassed now header user role =
      (scheme : List ℕ) × (token : List ℕ) × (c : Claims) × (header ≡ scheme ++ b' ' ∷ token)
      × (equal_fold scheme bearer ≡ true)
      × (parse_token crypto s now token ≡ ok c)
      × (c.token_type ≡ access)
      × (c.user_id ≡ user)
      × (c.role ≡ role)

  from_parts-ok :
      (now : ℕ) (header : List ℕ) (parts : Option (List ℕ × List ℕ)) (user : ℕ) (role : String)
      → split_at_space header ≡ parts
      → from_parts crypto s now parts ≡ Access.authenticated user role
      → IsPassed now header user role
  unfolding IsPassed
  from_parts-ok now header none user role split e = absurd (ground arith)
  from_parts-ok now header (some (scheme, token)) user role split e =
      elim (Bool-cases (equal_fold scheme bearer)) [
        | inr other ↦ absurd (ground arith)
        | inl same ↦
            let (c, read, kind, of_user, with_role) =
              from_claims-ok (parse_token crypto s now token) user role (ground arith) in
            (
              scheme,
              token,
              c,
              split_at_space-ok header scheme token split,
              same,
              read,
              kind,
              of_user,
              with_role,
            )
      ]

  pub auth_middleware-ok :
      (now : ℕ) (header : List ℕ) (user : ℕ) (role : String)
      → auth_middleware crypto s now header ≡ Access.authenticated user role
      → IsPassed now header user role
  unfolding auth_middleware
  auth_middleware-ok now [] user role e = absurd (ground arith)
  auth_middleware-ok now (b ∷ bs) user role e =
      from_parts-ok now (b ∷ bs) (split_at_space (b ∷ bs)) user role refl e
