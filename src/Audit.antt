-- ===== src/Audit.antt =====
-- internal/audit: the log of what administrators do.
use Prim.Native.String.{String}
use text.Mathlib.Text.{◌==◌ as str_eq}
use multi_trade_platform.Base.{
  ℕ, Bool, true, false, ◌&&◌, ◌||◌, List, [], ◌∷◌, ◌++◌, Option, none, some, ◌==◌, find_row, select,
  length, take, drop, ◌≡◌, refl, ap, ◌∙◌, ◌⊎◌, inl, inr, Bool-cases,
}
use multi_trade_platform.Base.Newest.{newest_first}
use multi_trade_platform.Store.{
  M, pure, modify, read_db, next_serial, statement, fail_if, ◌>>=◌, ◌>>◌, Error, User, AuditLog,
  Details, Db, World,
}
use multi_trade_platform.Store.Laws.{statement-cases, served}

-- What a caller gives for an entry.
pub record NewEntry : Type 0 where
  pub user_id : Option ℕ
  pub action : String
  pub details : Option Details
  pub ip_address : Option String

abbrev pub entry : ℕ → NewEntry → AuditLog
entry id n = record {
  id = id;
  user_id = n.user_id;
  action = n.action;
  details = n.details;
  ip_address = n.ip_address;
  created_at = id;
}

abbrev is_user : ℕ → User → Bool
is_user id u = u.id == id

-- The foreign key of the column user_id, which may be NULL.
abbrev pub has_no_user : Option ℕ → List User → Bool
has_no_user none us = false
has_no_user (some id) us = elim (find_row (is_user id) us) [ none ↦ true | some u ↦ false ]

unfoldable pub insert_entry : NewEntry → M AuditLog
insert_entry n = do
  db ← read_db
  fail_if (has_no_user n.user_id db.users) Error.refused
  id ← next_serial
  modify (λ d. record d { audit_logs = d.audit_logs ++ entry id n ∷ [] })
  pure (entry id n)

-- Create, in a transaction of the caller or without one.
unfoldable pub create : NewEntry → M AuditLog
unfolding insert_entry
create n = statement (insert_entry n)

abbrev is_by : ℕ → Option ℕ → Bool
is_by user_id none = false
is_by user_id (some id) = id == user_id

abbrev by_user : Option ℕ → AuditLog → Bool
by_user none l = true
by_user (some user_id) l = is_by user_id l.user_id

-- ($1 IS NULL OR user_id = $1) AND ($2 = '' OR action = $2)
abbrev pub matches : Option ℕ → String → AuditLog → Bool
matches user_id action l = by_user user_id l && (str_eq action "" || str_eq l.action action)

unfoldable pub list_logs : Option ℕ → String → ℕ → ℕ → M (List AuditLog)
list_logs user_id action limit offset = statement (do
  db ← read_db
  pure (
      take limit (
        drop offset
          (newest_first AuditLog.created_at (select (matches user_id action) db.audit_logs)))))

unfoldable pub count : Option ℕ → String → M ℕ
count user_id action =
    statement (do db ← read_db; pure (length (select (matches user_id action) db.audit_logs)))

-- The log after a call that tries to write an entry.
abbrev pub IsLogged : NewEntry → Db → Db → Type 0
IsLogged n before after =
    (after ≡ before)
    ⊎ ((id : ℕ) × (after ≡ record before { audit_logs = before.audit_logs ++ entry id n ∷ [] }))

insert_entry_cases : (n : NewEntry) (w : World) → IsLogged n w.db (insert_entry n w).1.db
unfolding insert_entry ◌>>=◌ ◌>>◌
insert_entry_cases n w = elim (Bool-cases (has_no_user n.user_id w.db.users)) [
  | inl none_there ↦ inl (rw none_there refl)
  | inr there ↦ inr (w.serial, rw there refl)
]

-- An entry of the log is written whole, or nothing is.
pub create_cases : (n : NewEntry) (w : World) → IsLogged n w.db (create n w).1.db
unfolding create
create_cases n w = elim (statement-cases (insert_entry n) w) [
  | inl failed ↦ inl (ap (λ r. r.1.db) failed)
  | inr done ↦ elim (insert_entry_cases n (served w)) [
    | inl same ↦ inl (ap (λ r. r.1.db) done ∙ same)
    | inr (id, more) ↦ inr (id, ap (λ r. r.1.db) done ∙ more)
  ]
]
