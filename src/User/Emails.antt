-- ===== src/User/Emails.antt =====
-- Every email stands in one row of users, so that it leads to the row.
use Prim.Native.String.{String}
use text.Mathlib.TextEquality.{eq_iff}
use multi_trade_platform.Base.{
  ℕ, ◌≡◌, ◌≢◌, refl, ap, arith, Bool, List, [], ◌∷◌, ◌++◌, Option, none, some, err, find_row,
  Bool-cases, inl, inr, if◌then◌else◌,
}
use multi_trade_platform.Store.{M, World, User, statement, ◌>>=◌, ◌>>◌}
use multi_trade_platform.Store.Laws.{statement-cases, served, Result-cases}
use multi_trade_platform.Store.Reading.{IsReading}
use multi_trade_platform.User.{
  has_email, with_email, with_id, new_user, insert_user, create_user, set_status, change_status,
  update_user_status,
}

-- Every email stands in one row.
abbrev pub HasEmails : List User → Type 0
HasEmails [] = Unit
HasEmails (u ∷ us) = (find_row (has_email u.email) us ≡ none) × HasEmails us

pub find_row-append_absent :
    (p : User → Bool) (us : List User) (v : User)
    → find_row p us ≡ none
    → find_row p (us ++ v ∷ []) ≡ (if p v then some v else none)
find_row-append_absent p [] v h = refl
find_row-append_absent p (u ∷ us) v h = ground (arith, find_row-append_absent p us v)

append-HasEmails :
    (us : List User) (v : User)
    → find_row (has_email v.email) us ≡ none
    → HasEmails us
    → HasEmails (us ++ v ∷ [])
append-HasEmails [] v new emails = (refl, tt)
append-HasEmails (u ∷ us) v new emails =
    let rest = append-HasEmails us v (ground arith) emails.1 in
    let head = find_row-append_absent (has_email u.email) us v emails.0 in
    let other = eq_iff u.email v.email in
    let other' = eq_iff v.email u.email in (ground arith, rest)

set_status_email :
    (email : String) (id : ℕ) (status : String) (us : List User)
    → find_row (has_email email) us ≡ none
    → find_row (has_email email) (set_status id status us) ≡ none
set_status_email email id status [] h = refl
set_status_email email id status (u ∷ us) h = ground (arith, set_status_email email id status us)

set_status-HasEmails :
    (id : ℕ) (status : String) (us : List User) → HasEmails us → HasEmails (set_status id status us)
set_status-HasEmails id status [] emails = tt
set_status-HasEmails id status (u ∷ us) emails =
    let head = set_status_email u.email id status us emails.0 in
    (ground arith, set_status-HasEmails id status us emails.1)

-- A call after which every email still stands in one row, however it ends.
pub record KeepsEmails {A : Type 0} (m : M A) : Type 0 where
  pub keeps : (w : World) → HasEmails w.db.users → HasEmails (m w).1.db.users

module _ {A : Type 0} (m : M A) where
  pub IsReading-KeepsEmails : IsReading m → KeepsEmails m
  IsReading-KeepsEmails reads = record { keeps = λ w emails. rw (reads w) emails }

  bind_emails :
      {B : Type 0} (f : A → M B)
      → KeepsEmails m
      → ((a : A) → KeepsEmails (f a))
      → (w : World) → HasEmails w.db.users
      → HasEmails ((m >>= f) w).1.db.users
  unfolding ◌>>=◌
  bind_emails f first rest w emails = elim (Result-cases (m w).0) [
    | inl (a, h) ↦
        let same : (m >>= f) w ≡ f a (m w).1 = ground arith in
        rw (same, HasEmails) ((rest a).keeps (m w).1 (first.keeps w emails))
    | inr (e, h) ↦
        let same : (m >>= f) w ≡ (err e, (m w).1) = ground arith in
        rw (same, HasEmails) (first.keeps w emails)
  ]

  pub >>=-KeepsEmails :
      {B : Type 0} (f : A → M B)
      → KeepsEmails m
      → ((a : A) → KeepsEmails (f a))
      → KeepsEmails (m >>= f)
  >>=-KeepsEmails f first rest = record { keeps = bind_emails f first rest }

  statement_emails :
      ((w : World) → HasEmails w.db.users → HasEmails (m w).1.db.users)
      → (w : World) → HasEmails w.db.users
      → HasEmails (statement m w).1.db.users
  statement_emails keeps w emails = elim (statement-cases m w) [
    | inl failed ↦ rw (failed, HasEmails) emails
    | inr done ↦ rw (done, HasEmails) (keeps (served w) emails)
  ]

insert_user-KeepsEmails :
    (email hash role : String) (w : World) (o : Option User)
    → find_row (has_email email) w.db.users ≡ o
    → HasEmails w.db.users
    → HasEmails (insert_user email hash role o w).1.db.users
unfolding insert_user ◌>>=◌ ◌>>◌
insert_user-KeepsEmails email hash role w (some u) h emails = emails
insert_user-KeepsEmails email hash role w none h emails =
    append-HasEmails w.db.users (new_user w.serial email hash role) h emails

pub create_user-KeepsEmails : (email hash role : String) → KeepsEmails (create_user email hash role)
unfolding create_user ◌>>=◌
create_user-KeepsEmails email hash role = record {
  keeps =
      statement_emails _ (λ w.
        insert_user-KeepsEmails email hash role w (find_row (has_email email) w.db.users) refl);
}

change_status-KeepsEmails :
    (id : ℕ) (status : String) (o : Option User) (w : World)
    → HasEmails w.db.users
    → HasEmails (change_status id status o w).1.db.users
unfolding change_status ◌>>=◌ ◌>>◌
change_status-KeepsEmails id status none w emails = emails
change_status-KeepsEmails id status (some u) w emails =
    set_status-HasEmails id status w.db.users emails

pub update_user_status-KeepsEmails :
    (id : ℕ) (status : String) → KeepsEmails (update_user_status id status)
unfolding update_user_status ◌>>=◌
update_user_status-KeepsEmails id status = record {
  keeps =
      statement_emails _
        (λ w. change_status-KeepsEmails id status (find_row (with_id id) w.db.users) w);
}

found_email :
    (id : ℕ) (us : List User) (x : User)
    → find_row (with_id id) us ≡ some x
    → find_row (has_email x.email) us ≢ none
found_email id [] x found absent = cc
found_email id (u ∷ us) x found absent = elim (Bool-cases (with_id id u)) [
  | inl h ↦
      let u_is : u ≡ x = ground arith in
      let same = eq_iff u.email x.email in
      let eq : u.email ≡ x.email = ap User.email u_is in absurd (ground arith)
  | inr h ↦ let rest = found_email id us x (ground arith) in ground arith
]

-- The row of a user after the status is set, found under the user's email.
pub set_status-email_row :
    (id : ℕ) (status : String) (us : List User) (x : User)
    → HasEmails us
    → find_row (with_id id) us ≡ some x
    → find_row (with_email x.email) (set_status id status us) ≡ some (record x { status = status })
set_status-email_row id status [] x emails found = absurd (ground arith)
set_status-email_row id status (u ∷ us) x emails found = elim (Bool-cases (with_id id u)) [
  | inl h ↦
      let u_is : u ≡ x = ground arith in
      let same = eq_iff u.email x.email in
      let eq : u.email ≡ x.email = ap User.email u_is in ground arith
  | inr h ↦
      let rest = set_status-email_row id status us x emails.1 (ground arith) in
      let there = found_email id us x (ground arith) in
      let same = eq_iff u.email x.email in
      let other : u.email ≢ x.email = λ e. there (rw (← e) emails.0) in ground arith
]
