-- ===== src/Auth/Laws.antt =====
-- Registration, login and suspension together.
use Prim.Native.String.{String}
use text.Mathlib.Text.{◌==◌ as str_eq}
use text.Mathlib.TextEquality.{eq_iff}
use multi_trade_platform.Base.{
  ℕ, ◌≡◌, ◌≢◌, refl, arith, true, false, not, [], some, Result, ok, err, find_row,
}
use multi_trade_platform.Store.{
  World, Error, User, statement, or_fail, fail_if, from_result, attempt, ◌>>=◌, ◌>>◌, pure,
}
use multi_trade_platform.Store.Laws.{served, fail_if-ok, >>=-step, >>-step}
use multi_trade_platform.Store.Reading.{
  IsReading, or_fail-IsReading, fail_if-IsReading, from_result-IsReading,
}
use multi_trade_platform.User.{with_email, create_user, get_user_by_email}
use multi_trade_platform.User.Status
use multi_trade_platform.User.Laws.{get_user_by_email-ok, get_user_by_email-IsReading}
use multi_trade_platform.User.Emails.{
  HasEmails, KeepsEmails, IsReading-KeepsEmails, >>=-KeepsEmails, create_user-KeepsEmails,
}
use multi_trade_platform.Wallet.{create_wallet_for_user}
use multi_trade_platform.Wallet.Repository.Effects.{create_wallet_users}
use multi_trade_platform.Auth.Token.{Crypto, JwtService, TokenPair, generate_token_pair}
use multi_trade_platform.Auth.Service.{
  RegisterRequest, LoginRequest, register, login, must_be_new, known_or, is_not_found,
  is_valid_role,
}

must_be_new-IsReading : (r : Result Error User) → IsReading (must_be_new r)
must_be_new-IsReading (ok u) = λ w. refl
must_be_new-IsReading (err e) = fail_if-IsReading (not (is_not_found e)) e

pub from_result-ok :
    {A : Type 0} (r : Result Error A) (w : World) (a : A) (w' : World)
    → from_result r w ≡ (ok a, w')
    → (r ≡ ok a) × (w' ≡ w)
from_result-ok (ok b) w a w' e = (ground arith, ground arith)
from_result-ok (err x) w a w' e = absurd (ground arith)

known_or-ok :
    (missing : Error) (r : Result Error User) (w : World) (u : User) (w' : World)
    → known_or missing r w ≡ (ok u, w')
    → (r ≡ ok u) × (w' ≡ w)
known_or-ok missing (ok v) w u w' e = (ground arith, ground arith)
known_or-ok missing (err x) w u w' e = absurd (ground arith)

pub must_be_new-ok :
    (r : Result Error User) (w : World) (a : Unit {0}) (w' : World)
    → must_be_new r w ≡ (ok a, w')
    → w' ≡ w
must_be_new-ok (ok v) w a w' e = absurd (ground arith)
must_be_new-ok (err x) w a w' e = (fail_if-ok (not (is_not_found x)) x w a w' e).1

pub wallet_users :
    (id : ℕ) (w : World) → (attempt (create_wallet_for_user id) w).1.db.users ≡ w.db.users
unfolding create_wallet_for_user ◌>>◌ ◌>>=◌
wallet_users id w = let same = create_wallet_users id w in ground arith

wallet-KeepsEmails : (id : ℕ) → KeepsEmails (attempt (create_wallet_for_user id))
wallet-KeepsEmails id = record { keeps = λ w emails. rw (wallet_users id w) emails }

module _ (crypto : Crypto) (s : JwtService) (now later : ℕ) where
  -- A login that succeeds is that of a user that is there under the email, with the password and not
  -- suspended; it returns a token pair for this user's id and role, and changes no table.
  pub login-ok :
      (input : LoginRequest) (w : World) (u : User) (pair : TokenPair) (w' : World)
      → login crypto s now later input w ≡ (ok (u, pair), w')
      → (find_row (with_email input.email) w.db.users ≡ some u)
        × (crypto.compare_hash_and_password u.password_hash input.password ≡ true)
        × (u.status ≢ Status.suspended)
        × (generate_token_pair crypto s now later u.id u.role ≡ ok pair)
        × (w'.db ≡ w.db)
  unfolding login
  login-ok input w u pair w' e = >>=-step _ _ e λ r w₁ e₁ k₁. >>=-step _ _ k₁ λ v w₂ e₂ k₂.
      >>-step _ _ k₂ λ a w₃ e₃ k₃. >>-step _ _ k₃ λ b w₄ e₄ k₄. >>=-step _ _ k₄ λ p w₅ e₅ k₅.
        let (found, same₂) = known_or-ok Error.invalid_credentials r w₁ v w₂ e₂ in
        let (right, same₃) = fail_if-ok _ Error.invalid_credentials w₂ a w₃ e₃ in
        let (fit, same₄) = fail_if-ok _ Error.account_suspended w₃ b w₄ e₄ in
        let (tokens, same₅) = from_result-ok _ w₄ p w₅ e₅ in
        let v_is : v ≡ u = ground arith in
        let p_is : p ≡ pair = ground arith in
        let looked_up : get_user_by_email input.email w ≡ (ok v, w₁) = ground arith in
        let (row, same₁) = get_user_by_email-ok input.email w v w₁ looked_up in
        let tables : w'.db ≡ w.db = ground arith in
        let password : crypto.compare_hash_and_password v.password_hash input.password ≡ true =
          ground arith in
        let status : v.status ≢ Status.suspended =
          ground (arith, eq_iff v.status Status.suspended) in
        rw (← v_is, ← p_is) (row, password, status, tokens, tables)

  looked_up :
      (email : String) (w : World) (u : User)
      → w.faults ≡ []
      → find_row (with_email email) w.db.users ≡ some u
      → get_user_by_email email w ≡ (ok u, w)
  unfolding get_user_by_email statement ◌>>=◌
  looked_up email w u served found = ground arith

  pub login_done :
      (input : LoginRequest) (w : World) (u : User) (pair : TokenPair)
      → w.faults ≡ []
      → find_row (with_email input.email) w.db.users ≡ some u
      → crypto.compare_hash_and_password u.password_hash input.password ≡ true
      → str_eq u.status Status.suspended ≡ false
      → generate_token_pair crypto s now later u.id u.role ≡ ok pair
      → (login crypto s now later input w).0 ≡ ok (u, pair)
  unfolding login ◌>>=◌ ◌>>◌
  login_done input w u pair served found right fit tokens =
      let l = looked_up input.email w u served found in ground arith

  -- A suspended user with the right password is refused.
  pub login-suspended :
      (input : LoginRequest) (w : World) (u : User)
      → w.faults ≡ []
      → find_row (with_email input.email) w.db.users ≡ some u
      → crypto.compare_hash_and_password u.password_hash input.password ≡ true
      → u.status ≡ Status.suspended
      → (login crypto s now later input w).0 ≡ err Error.account_suspended
  unfolding login ◌>>=◌ ◌>>◌
  login-suspended input w u served found right suspended =
      let l = looked_up input.email w u served found in
      ground (arith, eq_iff u.status Status.suspended)

  register-KeepsEmails :
      (salt : ℕ) (input : RegisterRequest) → KeepsEmails (register crypto s now later salt input)
  unfolding register ◌>>◌
  register-KeepsEmails salt input =
      let valid = not (is_valid_role input.role) in
      let lookup = get_user_by_email input.email in
      let hashed = crypto.generate_from_password salt input.password in
      >>=-KeepsEmails (fail_if valid Error.invalid_role) _
        (IsReading-KeepsEmails (fail_if valid Error.invalid_role)
          (fail_if-IsReading valid Error.invalid_role))
        λ a.
          >>=-KeepsEmails (attempt lookup) _
            (IsReading-KeepsEmails (attempt lookup) (get_user_by_email-IsReading input.email))
            λ r.
              >>=-KeepsEmails (must_be_new r) _
                (IsReading-KeepsEmails (must_be_new r) (must_be_new-IsReading r))
                λ b.
                  >>=-KeepsEmails (or_fail hashed Error.hash_failed) _
                    (IsReading-KeepsEmails (or_fail hashed Error.hash_failed)
                      (or_fail-IsReading hashed Error.hash_failed))
                    λ hash.
                      >>=-KeepsEmails (create_user input.email hash input.role) _
                        (create_user-KeepsEmails input.email hash input.role)
                        λ u.
                          let tokens = generate_token_pair crypto s now later u.id u.role in
                          >>=-KeepsEmails (from_result tokens) _
                            (IsReading-KeepsEmails (from_result tokens)
                              (from_result-IsReading tokens))
                            λ pair.
                              >>=-KeepsEmails (attempt (create_wallet_for_user u.id))
                                (λ c. pure (u, pair)) (wallet-KeepsEmails u.id)
                                λ c. record { keeps = λ w emails. emails }

  -- A registration keeps every email in one row, whether it succeeds or fails.
  pub register-HasEmails :
      (salt : ℕ) (input : RegisterRequest) (w : World)
      → HasEmails w.db.users
      → HasEmails (register crypto s now later salt input w).1.db.users
  register-HasEmails salt input = (register-KeepsEmails salt input).keeps
