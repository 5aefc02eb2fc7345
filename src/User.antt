-- ===== src/User.antt =====
-- internal/user: the statements of the repository, and the service that passes one on.
pub mod Role
pub mod Status
pub mod Laws
pub mod Emails
use Prim.Native.String.{String}
use text.Mathlib.Text.{◌==◌ as str_eq}
use multi_trade_platform.Base.{
  ℕ, Bool, true, false, ◌&&◌, ◌||◌, List, [], ◌∷◌, ◌++◌, Option, none, some, ◌==◌, find_row,
  update_rows, select, length, take, drop,
}
use multi_trade_platform.Base.Newest.{newest_first}
use multi_trade_platform.Store.{
  M, pure, fail, or_fail, modify, read_db, next_serial, statement, ◌>>=◌, ◌>>◌, Error, User,
}
use multi_trade_platform.User.Status

-- deleted_at IS NULL
abbrev pub is_kept : User → Bool
is_kept u = elim u.deleted_at [ none ↦ true | some t ↦ false ]

-- The column email is UNIQUE, deleted rows included.
abbrev pub has_email : String → User → Bool
has_email email u = str_eq u.email email

abbrev pub with_email : String → User → Bool
with_email email u = has_email email u && is_kept u

abbrev pub with_id : ℕ → User → Bool
with_id id u = u.id == id && is_kept u

abbrev pub new_user : ℕ → String → String → String → User
new_user id email hash role = record {
  id = id;
  email = email;
  password_hash = hash;
  role = role;
  status = Status.active;
  created_at = id;
  deleted_at = none;
}

insert_user : String → String → String → Option User → M User
insert_user email hash role (some u) = fail Error.refused
insert_user email hash role none = do
  id ← next_serial
  modify (λ db. record db { users = db.users ++ new_user id email hash role ∷ [] })
  pure (new_user id email hash role)

unfoldable pub create_user : String → String → String → M User
unfolding insert_user
create_user email hash role =
    statement (do db ← read_db; insert_user email hash role (find_row (has_email email) db.users))

unfoldable pub get_user_by_email : String → M User
get_user_by_email email =
    statement (do db ← read_db; or_fail (find_row (with_email email) db.users) Error.user_not_found)

unfoldable pub get_user_by_id : ℕ → M User
get_user_by_id id =
    statement (do db ← read_db; or_fail (find_row (with_id id) db.users) Error.user_not_found)

-- ($1 = '' OR role = $1) AND ($2 = '' OR status = $2)
abbrev pub matches : String → String → User → Bool
matches role status u =
    is_kept u
    && (str_eq role "" || str_eq u.role role)
    && (str_eq status "" || str_eq u.status status)

-- ORDER BY created_at DESC
unfoldable pub list_users : String → String → ℕ → ℕ → M (List User)
list_users role status limit offset = statement (do
  db ← read_db
  pure (
      take limit
        (drop offset (newest_first User.created_at (select (matches role status) db.users)))))

unfoldable pub count_users : String → String → M ℕ
count_users role status =
    statement (do db ← read_db; pure (length (select (matches role status) db.users)))

abbrev pub set_status : ℕ → String → List User → List User
set_status id status = update_rows (with_id id) (λ u. record u { status = status })

change_status : ℕ → String → Option User → M User
change_status id status none = fail Error.user_not_found
change_status id status (some u) = do
  modify (λ db. record db { users = set_status id status db.users })
  pure (record u { status = status })

unfoldable pub update_user_status : ℕ → String → M User
unfolding change_status
update_user_status id status =
    statement (do db ← read_db; change_status id status (find_row (with_id id) db.users))
