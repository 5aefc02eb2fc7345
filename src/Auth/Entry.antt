-- ===== src/Auth/Entry.antt =====
-- From a registration or a login to the requests that the tokens let in.
use Prim.Native.String.{String}
use text.Mathlib.TextEquality.{eq_iff}
use multi_trade_platform.Base.{
  ℕ, ◌+◌, ◌*◌, ◌≤◌, ◌<◌, ◌≡◌, refl, sym, ap, ◌∙◌, arith, List, [], ◌∷◌, ◌++◌, none, some, ok,
  find_row, Option-cases, inl, inr,
}
use multi_trade_platform.Store.{World, Db, Error, User, statement, ◌>>=◌, ◌>>◌}
use multi_trade_platform.Store.Laws.{served, or_fail-ok, >>=-step, >>-step}
use multi_trade_platform.User.{has_email, with_email, with_id, get_user_by_id}
use multi_trade_platform.User.Status
use multi_trade_platform.User.Laws.{create_user-ok}
use multi_trade_platform.User.Emails.{find_row-append_absent}
use multi_trade_platform.Auth.Token.{
  Crypto, IsCrypto, JwtService, TokenPair, TokenType, access, refresh, Claims, numeric_date,
  generate_token, generate_token_pair, parse_token,
}
use multi_trade_platform.Auth.Service.{RegisterRequest, register, login, refresh_tokens}
use multi_trade_platform.Auth.Laws.{from_result-ok, login_done, wallet_users}
use multi_trade_platform.Auth.Middleware.{
  bearer, auth_middleware, split_at_space, authenticated, access_token_required,
}

-- A second before a time is before the second of that time.
before_expiry :
    (time until : ℕ) → time + 1000000000 ≤ until → time < numeric_date until * 1000000000
before_expiry time until fresh = omega arith

-- No row has the email, so none that is kept has it.
absent_email :
    (email : String) (us : List User)
    → find_row (has_email email) us ≡ none
    → find_row (with_email email) us ≡ none
absent_email email [] h = refl
absent_email email (u ∷ us) h = ground (arith, absent_email email us)

module _ (crypto : Crypto) (s : JwtService) where
  register-ok :
      (now later salt : ℕ) (input : RegisterRequest) (w : World) (u : User) (pair : TokenPair)
      (w' : World)
      → register crypto s now later salt input w ≡ (ok (u, pair), w')
      → (crypto.generate_from_password salt input.password ≡ some u.password_hash)
        × (find_row (with_email input.email) w'.db.users ≡ some u)
        × (u.status ≡ Status.active)
  unfolding register
  register-ok now later salt input w u pair w' e = >>-step _ _ e λ a w₁ e₁ k₁.
      >>=-step _ _ k₁ λ r w₂ e₂ k₂. >>-step _ _ k₂ λ b w₃ e₃ k₃. >>=-step _ _ k₃ λ hash w₄ e₄ k₄.
        >>=-step _ _ k₄ λ v w₅ e₅ k₅. >>=-step _ _ k₅ λ p w₆ e₆ k₆. >>-step _ _ k₆ λ c w₇ e₇ k₇.
          let (hashed, same₄) = or_fail-ok _ Error.hash_failed w₃ hash w₄ e₄ in
          let (new, shape, tables, faults) =
            create_user-ok input.email hash input.role w₄ v w₅ e₅ in
          let (tokens, same₆) = from_result-ok _ w₅ p w₆ e₆ in
          let after = wallet_users v.id w₆ in
          let v_is : v ≡ u = ground arith in
          let users : w'.db.users ≡ w₄.db.users ++ v ∷ [] =
            sym (ap (λ r. r.1.db.users) k₇)
            ∙ sym (ap (λ r. r.1.db.users) e₇)
            ∙ after
            ∙ ap (λ (x : World). x.db.users) same₆
            ∙ ap (λ (d : Db). d.users) tables in
          let found =
            find_row-append_absent (with_email input.email) w₄.db.users v
              (absent_email input.email w₄.db.users new) in
          let row : find_row (with_email input.email) w'.db.users ≡ some v =
            rw users (found ∙ (let same = eq_iff v.email input.email in ground arith)) in
          let stored : crypto.generate_from_password salt input.password ≡ some v.password_hash =
            hashed ∙ ap (λ (x : User). some x.password_hash) (sym shape) in
          rw (← v_is) (stored, row, ap User.status shape)

  -- Whoever has been registered can log in at any later time with the same email and password,
  -- provided that bcrypt does what it documents, the tokens can be signed and no statement fails; the
  -- user returned is the same.
  pub login-register :
      (now later salt : ℕ) (input : RegisterRequest) (w : World) (u : User) (pair : TokenPair)
      (w' : World) (now' later' : ℕ) (pair' : TokenPair)
      → IsCrypto crypto
      → register crypto s now later salt input w ≡ (ok (u, pair), w')
      → w'.faults ≡ []
      → generate_token_pair crypto s now' later' u.id u.role ≡ ok pair'
      → (login crypto s now' later'
          (record { email = input.email; password = input.password })
          w').0
        ≡ ok (u, pair')
  login-register now later salt input w u pair w' now' later' pair' laws e served signed =
      let (hashed, row, active) = register-ok now later salt input w u pair w' e in
      login_done crypto s now' later' (record { email = input.email; password = input.password }) w'
        u pair' served row (laws.compares salt input.password u.password_hash hashed)
        (let other = eq_iff u.status Status.suspended in rw active refl) signed

  -- The claims of a token that was made.
  generated-parses :
      (now id : ℕ) (role : String) (kind : TokenType) (expiry : ℕ) (t : List ℕ) (time : ℕ)
      → IsCrypto crypto
      → generate_token crypto s now id role kind expiry ≡ some t
      → time + 1000000000 ≤ now + expiry
      → (c : Claims) × (parse_token crypto s time t ≡ ok c)
        × (c.user_id ≡ id)
        × (c.role ≡ role)
        × (c.token_type ≡ kind)
  unfolding generate_token parse_token
  generated-parses now id role kind expiry t time laws e fresh =
      let c : Claims = record {
        user_id = id;
        role = role;
        token_type = kind;
        issued_at = numeric_date now;
        expires_at = numeric_date (now + expiry);
      } in
      let early : time < numeric_date (now + expiry) * 1000000000 =
        before_expiry time (now + expiry) fresh in
      (c, rw (laws.parses c s.secret t _ time e refl early) refl, refl, refl, refl)

  generated_pair :
      (now later id : ℕ) (role : String) (pair : TokenPair)
      → generate_token_pair crypto s now later id role ≡ ok pair
      → (generate_token crypto s now id role access s.access_expiry ≡ some pair.access_token)
        × (generate_token crypto s later id role refresh s.refresh_expiry ≡ some pair.refresh_token)
  unfolding generate_token_pair
  generated_pair now later id role pair e =
      elim (Option-cases (generate_token crypto s now id role access s.access_expiry)) [
        | inl a ↦ absurd (ground arith)
        | inr (t, a) ↦
            elim (Option-cases (generate_token crypto s later id role refresh s.refresh_expiry)) [
              | inl r ↦ absurd (ground arith)
              | inr (k, r) ↦ (ground arith, ground arith)
            ]
      ]

  -- A request with the access token of a pair passes as the user and the role that the pair was made
  -- for, until a second before the token expires, given what the JWT package documents.
  pub auth_middleware_access :
      (now later id : ℕ) (role : String) (pair : TokenPair) (time : ℕ)
      → IsCrypto crypto
      → generate_token_pair crypto s now later id role ≡ ok pair
      → time + 1000000000 ≤ now + s.access_expiry
      → auth_middleware crypto s time (bearer ++ b' ' ∷ pair.access_token) ≡ authenticated id role
  unfolding auth_middleware split_at_space
  auth_middleware_access now later id role pair time laws e fresh =
      let (first, second) = generated_pair now later id role pair e in
      let (c, read, of_user, with_role, kind) =
        generated-parses now id role access s.access_expiry pair.access_token time laws first
          fresh in
      ground arith

  -- A request with the refresh token of a pair does not pass.
  pub auth_middleware_refresh :
      (now later id : ℕ) (role : String) (pair : TokenPair) (time : ℕ)
      → IsCrypto crypto
      → generate_token_pair crypto s now later id role ≡ ok pair
      → time + 1000000000 ≤ later + s.refresh_expiry
      → auth_middleware crypto s time (bearer ++ b' ' ∷ pair.refresh_token) ≡ access_token_required
  unfolding auth_middleware split_at_space
  auth_middleware_refresh now later id role pair time laws e fresh =
      let (first, second) = generated_pair now later id role pair e in
      let (c, read, of_user, with_role, kind) =
        generated-parses later id role refresh s.refresh_expiry pair.refresh_token time laws second
          fresh in
      ground arith

  found_by_id :
      (id : ℕ) (w : World) (u : User)
      → w.faults ≡ []
      → find_row (with_id id) w.db.users ≡ some u
      → get_user_by_id id w ≡ (ok u, w)
  unfolding get_user_by_id statement ◌>>=◌
  found_by_id id w u served found = ground arith

  -- Given what the JWT package documents, and where no statement fails and the tokens can be signed,
  -- the refresh token of a pair, until a second before it expires, gives a new pair for the row that
  -- the user has then, whatever the status in it, a suspension included.
  pub refresh_tokens_renews :
      (now later id : ℕ) (role : String) (pair : TokenPair) (time later' : ℕ) (w : World) (u : User)
      (pair' : TokenPair)
      → IsCrypto crypto
      → generate_token_pair crypto s now later id role ≡ ok pair
      → time + 1000000000 ≤ later + s.refresh_expiry
      → w.faults ≡ []
      → find_row (with_id id) w.db.users ≡ some u
      → generate_token_pair crypto s time later' u.id u.role ≡ ok pair'
      → refresh_tokens crypto s time later' pair.refresh_token w ≡ (ok pair', w)
  unfolding refresh_tokens ◌>>=◌ ◌>>◌
  refresh_tokens_renews now later id role pair time later' w u pair' laws e fresh served found
        signed =
      let (first, second) = generated_pair now later id role pair e in
      let (c, read, of_user, with_role, kind) =
        generated-parses later id role refresh s.refresh_expiry pair.refresh_token time laws second
          fresh in
      let row = found_by_id id w u served found in ground arith
