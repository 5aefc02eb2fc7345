-- ===== src/User/Laws.antt =====
-- What the statements on users do.
use Prim.Native.String.{String}
use multi_trade_platform.Base.{
  ℕ, ◌≡◌, refl, sym, ap, ◌∙◌, arith, [], ◌∷◌, ◌++◌, Option, none, some, ok, find_row, inl, inr,
}
use multi_trade_platform.Store.{M, World, Error, User, ◌>>=◌, ◌>>◌}
use multi_trade_platform.Store.Laws.{IsAtomic, statement-ok, statement-cases, served, or_fail-ok}
use multi_trade_platform.Store.Reading.{IsReading, statement-IsReading, or_fail-IsReading}
use multi_trade_platform.User.{
  has_email, with_email, with_id, new_user, insert_user, create_user, get_user_by_email,
  get_user_by_id, set_status, change_status, update_user_status,
}

pub get_user_by_email-ok :
    (email : String) (w : World) (u : User) (w' : World)
    → get_user_by_email email w ≡ (ok u, w')
    → (find_row (with_email email) w.db.users ≡ some u) × (w' ≡ served w)
unfolding get_user_by_email ◌>>=◌
get_user_by_email-ok email w u w' e =
    or_fail-ok (find_row (with_email email) w.db.users) Error.user_not_found (served w) u w'
      (statement-ok _ w u w' e)

pub get_user_by_email-IsReading : (email : String) → IsReading (get_user_by_email email)
unfolding get_user_by_email ◌>>=◌
get_user_by_email-IsReading email =
    statement-IsReading _
      (λ w. or_fail-IsReading (find_row (with_email email) w.db.users) Error.user_not_found w)

pub get_user_by_id-IsReading : (id : ℕ) → IsReading (get_user_by_id id)
unfolding get_user_by_id ◌>>=◌
get_user_by_id-IsReading id =
    statement-IsReading _
      (λ w. or_fail-IsReading (find_row (with_id id) w.db.users) Error.user_not_found w)

create_user_go :
    (email hash role : String) (w : World) (o : Option User) (u : User) (w' : World)
    → insert_user email hash role o w ≡ (ok u, w')
    → (o ≡ none)
      × (u ≡ new_user w.serial email hash role)
      × (w'.db ≡ record w.db { users = w.db.users ++ u ∷ [] })
      × (w'.faults ≡ w.faults)
unfolding insert_user ◌>>=◌ ◌>>◌
create_user_go email hash role w none u w' e = (refl, ground arith, ground arith, ground arith)
create_user_go email hash role w (some x) u w' e = absurd (ground arith)

pub create_user-ok :
    (email hash role : String) (w : World) (u : User) (w' : World)
    → create_user email hash role w ≡ (ok u, w')
    → (find_row (has_email email) w.db.users ≡ none)
      × (u ≡ new_user w.serial email hash role)
      × (w'.db ≡ record w.db { users = w.db.users ++ u ∷ [] })
      × (w'.faults ≡ (served w).faults)
unfolding create_user ◌>>=◌
create_user-ok email hash role w u w' e =
    create_user_go email hash role (served w) (find_row (has_email email) w.db.users) u w'
      (statement-ok _ w u w' e)

change_status_go :
    (id : ℕ) (status : String) (w : World) (o : Option User) (u : User) (w' : World)
    → change_status id status o w ≡ (ok u, w')
    → (x : User) × (o ≡ some x)
      × (u ≡ record x { status = status })
      × (w' ≡ record w { db = record w.db { users = set_status id status w.db.users } })
unfolding change_status ◌>>=◌ ◌>>◌
change_status_go id status w none u w' e = absurd (ground arith)
change_status_go id status w (some x) u w' e = (x, refl, ground arith, ground arith)

pub update_user_status-ok :
    (id : ℕ) (status : String) (w : World) (u : User) (w' : World)
    → update_user_status id status w ≡ (ok u, w')
    → (x : User) × (find_row (with_id id) w.db.users ≡ some x)
      × (u ≡ record x { status = status })
      × (w'.db ≡ record w.db { users = set_status id status w.db.users })
unfolding update_user_status ◌>>=◌
update_user_status-ok id status w u w' e =
    let (x, found, shape, same) =
      change_status_go id status (served w) (find_row (with_id id) w.db.users) u w'
        (statement-ok _ w u w' e) in
    (x, found, shape, ap World.db same)

change_status_error :
    (id : ℕ) (status : String) (o : Option User) → IsAtomic (change_status id status o)
unfolding change_status ◌>>=◌ ◌>>◌
change_status_error id status none w e h = refl
change_status_error id status (some x) w e h = absurd (ground arith)

pub update_user_status-IsAtomic :
    (id : ℕ) (status : String) → IsAtomic (update_user_status id status)
unfolding update_user_status ◌>>=◌
update_user_status-IsAtomic id status w e h =
    let query : M User = λ v. change_status id status (find_row (with_id id) v.db.users) v in
    elim (statement-cases query w) [
      | inl failed ↦ ap (λ r. r.1.db) failed
      | inr done ↦
          ap (λ r. r.1.db) done
          ∙ change_status_error id status (find_row (with_id id) w.db.users) (served w) e
              (sym (ap (λ r. r.0) done) ∙ h)
    ]
