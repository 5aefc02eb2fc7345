-- ===== src/Admin.antt =====
-- internal/admin/service: the users' status, lists, and the health of what the system runs on.
pub mod Laws
pub mod Pages
use Prim.Native.String.{String}
use text.Mathlib.Text.{◌==◌ as str_eq}
use multi_trade_platform.Base.{
  ℕ, ◌+◌, ◌-◌, ◌*◌, ◌/◌, Bool, true, false, not, ◌&&◌, ◌||◌, List, [], ◌∷◌, Option, none, some,
  ◌==◌, ltb, if◌then◌else◌,
}
use multi_trade_platform.Store.{
  M, pure, fail, fail_if, attempt, ◌>>=◌, ◌>>◌, Error, User, AuditLog, Details,
}
use multi_trade_platform.User
use multi_trade_platform.User.Status
use multi_trade_platform.Audit
use multi_trade_platform.Audit.{NewEntry}

pub record UserPage : Type 0 where
  pub users : List User
  pub total : ℕ
  pub page : ℕ
  pub page_size : ℕ
  pub total_pages : ℕ

-- (A negative number is treated as 0 is.)
abbrev pub page_number : ℕ → ℕ
page_number page = if ltb page 1 then 1 else page

abbrev pub size_of_page : ℕ → ℕ
size_of_page page_size = if ltb page_size 1 || ltb 100 page_size then 20 else page_size

unfoldable pub list_users : String → String → ℕ → ℕ → M UserPage
list_users role status page page_size = do
  let number = page_number page
  let size = size_of_page page_size
  users ← User.list_users role status size ((number - 1) * size)
  total ← User.count_users role status
  let pages = (total + size - 1) / size
  pure (record {
    users = users;
    total = total;
    page = number;
    page_size = size;
    total_pages = if pages == 0 then 1 else pages;
  })

abbrev pub is_status : String → Bool
is_status status = str_eq status Status.active || str_eq status Status.suspended

abbrev pub action_for : String → String
action_for status = if str_eq status Status.suspended then "USER_SUSPENDED" else "USER_ACTIVATED"

abbrev pub status_entry : ℕ → ℕ → String → NewEntry
status_entry admin_id target_id status = record {
  user_id = some admin_id;
  action = action_for status;
  details = some (Details.status_set admin_id target_id status);
  ip_address = none;
}

-- A failure to write the audit log is passed over.
unfoldable pub update_user_status : ℕ → ℕ → String → M User
update_user_status admin_id target_id status = do
  fail_if (not (is_status status)) Error.invalid_status
  u ← User.update_user_status target_id status
  attempt (Audit.create (status_entry admin_id target_id status))
  pure u

unfoldable pub list_audit_logs : Option ℕ → String → ℕ → ℕ → M (List AuditLog × ℕ)
list_audit_logs user_id action page page_size = do
  let number = page_number page
  let size = size_of_page page_size
  logs ← Audit.list_logs user_id action size ((number - 1) * size)
  total ← Audit.count user_id action
  pure (logs, total)

pub data Health : Type 0 where
  up down disabled : Health

pub record SystemHealth : Type 0 where
  pub database : Health
  pub redis : Health
  pub kafka : Health

abbrev pub up_if : Bool → Health
up_if ok = if ok then up else down

-- Whether every broker is reached, the dials in order until one fails.
abbrev pub all_reached : List Bool → Bool
all_reached [] = true
all_reached (reached ∷ rest) = reached && all_reached rest

-- What the pings and dials answer; there may be no Redis client.
unfoldable pub health : Bool → Option Bool → List Bool → SystemHealth
health database redis brokers = record {
  database = up_if database;
  redis = elim redis [ none ↦ disabled | some ok ↦ up_if ok ];
  kafka = elim brokers [ [] ↦ disabled | b ∷ bs ↦ up_if (b && all_reached bs) ];
}
