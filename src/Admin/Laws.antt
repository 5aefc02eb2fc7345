-- ===== src/Admin/Laws.antt =====
-- What an administrator's change of a user's status does, and what it means for the user's login.
use Prim.Native.String.{String}
use multi_trade_platform.Base.{
  ℕ, ◌≡◌, ◌≢◌, sym, ap, ◌∙◌, subst, arith, true, not, [], some, ok, err, find_row, inl, inr,
}
use multi_trade_platform.Store.{M, World, Db, Error, User, fail_if, attempt, ◌>>=◌, ◌>>◌, pure}
use multi_trade_platform.Store.Laws.{IsAtomic-error, fail_if-ok, >>=-step, >>-step}
use multi_trade_platform.Store.Reading.{>>-IsAtomic, >>=-IsAtomic_last, fail_if-IsReading}
use multi_trade_platform.User
use multi_trade_platform.User.{has_email, with_email, with_id, set_status}
use multi_trade_platform.User.Status
use multi_trade_platform.User.Laws.{update_user_status-ok, update_user_status-IsAtomic}
use multi_trade_platform.User.Emails.{HasEmails, set_status-email_row}
use multi_trade_platform.Audit
use multi_trade_platform.Audit.{NewEntry, IsLogged, create_cases}
use multi_trade_platform.Admin.{is_status, status_entry, update_user_status}
use multi_trade_platform.Auth.Token.{Crypto, JwtService}
use multi_trade_platform.Auth.Service.{login}
use multi_trade_platform.Auth.Laws.{login-suspended}

-- A call that succeeds has set the status that was asked for in the row of the user, and has changed
-- nothing else but the log, which has at most an entry about it more. The status is one of the two
-- that there are.
pub update_user_status_effect :
    (admin_id target_id : ℕ) (status : String) (w : World) (u : User) (w' : World)
    → update_user_status admin_id target_id status w ≡ (ok u, w')
    → (is_status status ≡ true)
      × ((x : User) × (find_row (with_id target_id) w.db.users ≡ some x)
          × (u ≡ record x { status = status }))
      × IsLogged
          (status_entry admin_id target_id status)
          (record w.db { users = set_status target_id status w.db.users })
          w'.db
unfolding update_user_status
update_user_status_effect admin_id target_id status w u w' e = >>-step _ _ e λ a w₁ e₁ k₁.
    >>=-step _ _ k₁ λ v w₂ e₂ k₂. >>-step _ _ k₂ λ r w₃ e₃ k₃.
      let (valid, same₁) = fail_if-ok _ Error.invalid_status w a w₁ e₁ in
      let (x, found, shape, tables) = update_user_status-ok target_id status w₁ v w₂ e₂ in
      let v_is : v ≡ u = ground arith in
      let before : w₂.db ≡ record w.db { users = set_status target_id status w.db.users } =
        tables
        ∙ ap (λ (y : World). record y.db { users = set_status target_id status y.db.users })
            same₁ in
      let after : (Audit.create (status_entry admin_id target_id status) w₂).1.db ≡ w'.db =
        ap (λ p. p.1.db) e₃ ∙ ap (λ p. p.1.db) k₃ in
      let logged : IsLogged (status_entry admin_id target_id status)
          (record w.db { users = set_status target_id status w.db.users }) w'.db =
        subst (λ d. IsLogged (status_entry admin_id target_id status) d w'.db) before
          (subst (IsLogged (status_entry admin_id target_id status) w₂.db) after
            (create_cases (status_entry admin_id target_id status) w₂)) in
      let there : find_row (with_id target_id) w.db.users ≡ some x = rw (← same₁) found in
      (ground arith, (x, there, sym v_is ∙ shape), logged)

audited_ok :
    (n : NewEntry) (u : User) (w : World) (e : Error)
    → ((attempt (Audit.create n) >> pure u) w).0 ≢ err e
unfolding ◌>>=◌ ◌>>◌
audited_ok n u w e h = ground arith

-- A call that fails has changed no table.
pub update_user_status_error :
    (admin_id target_id : ℕ) (status : String) (w : World) (e : Error) (w' : World)
    → update_user_status admin_id target_id status w ≡ (err e, w')
    → w'.db ≡ w.db
unfolding update_user_status ◌>>◌
update_user_status_error admin_id target_id status w e w' h =
    let audited : User → M User =
      λ u. attempt (Audit.create (status_entry admin_id target_id status)) >> pure u in
    IsAtomic-error (update_user_status admin_id target_id status) w e w'
      (>>-IsAtomic (fail_if (not (is_status status)) Error.invalid_status)
        (User.update_user_status target_id status >>= audited)
        (fail_if-IsReading (not (is_status status)) Error.invalid_status)
        (>>=-IsAtomic_last (User.update_user_status target_id status) audited
          (update_user_status-IsAtomic target_id status)
          (λ u v x k. audited_ok (status_entry admin_id target_id status) u v x k)))
      h

logged_users :
    (n : NewEntry) (before after : Db) → IsLogged n before after → after.users ≡ before.users
logged_users n before after (inl same) = ap Db.users same
logged_users n before after (inr (id, more)) = ap Db.users more

-- After an administrator has suspended a user, a login under the user's email with the right password
-- is refused, where every email stands in one row and no statement of the login fails.
pub suspended_cannot_login :
    (crypto : Crypto) (s : JwtService) (now later admin_id target_id : ℕ) (password : String)
    (w : World) (u : User) (w' : World)
    → HasEmails w.db.users
    → update_user_status admin_id target_id Status.suspended w ≡ (ok u, w')
    → w'.faults ≡ []
    → crypto.compare_hash_and_password u.password_hash password ≡ true
    → (login crypto s now later (record { email = u.email; password = password }) w').0
      ≡ err Error.account_suspended
suspended_cannot_login crypto s now later admin_id target_id password w u w' emails e quiet right =
    let (valid, (x, found, shape), logged) =
      update_user_status_effect admin_id target_id Status.suspended w u w' e in
    let row = set_status-email_row target_id Status.suspended w.db.users x emails found in
    let users : w'.db.users ≡ set_status target_id Status.suspended w.db.users =
      logged_users (status_entry admin_id target_id Status.suspended) _ w'.db logged in
    let email : u.email ≡ x.email = ap User.email shape in
    let there : find_row (with_email u.email) w'.db.users ≡ some u =
      subst (λ us. find_row (with_email u.email) us ≡ some u) (sym users)
        (subst
          (λ m. find_row (with_email m) (set_status target_id Status.suspended w.db.users) ≡ some u)
          (sym email) (row ∙ ap some (sym shape))) in
    login-suspended crypto s now later (record { email = u.email; password = password }) w' u quiet
      there right (ap User.status shape)
