-- ===== src/Http/Admin.antt =====
-- admin_handler.go: the handlers of /admin, but for the two that show analytics.
use Prim.Native.String.{String}
use multi_trade_platform.Base.{
  ℕ, zero, suc, ◌+◌, ◌-◌, ◌/◌, Bool, List, [], ◌∷◌, Option, none, some, ltb, ◌==◌, if◌then◌else◌,
}
use multi_trade_platform.Base.Int.{ℤ, pos, negsuc, pos_part}
use multi_trade_platform.Store.{World, Error, AuditLog}
use multi_trade_platform.Admin as Service
use multi_trade_platform.Admin.{Health, SystemHealth, health, list_audit_logs}
use multi_trade_platform.Http.{
  Reply, Handler, reply, refuse, refuse_with, must_user_id, bound, with_path_id, respond_with,
  users_body, user_body, health_body, logs_body,
}

abbrev list_users_failure : Error → Reply
list_users_failure e = refuse 500 "could not list users"

unfoldable pub list_users_handler : String → String → ℕ → ℕ → Handler World
list_users_handler role status page page_size w =
    respond_with (λ p. reply 200 (users_body p)) list_users_failure
      (Service.list_users role status page page_size) w

abbrev pub update_user_status_failure : Error → Reply
update_user_status_failure Error.user_not_found = refuse 404 "user not found"
update_user_status_failure Error.invalid_status = refuse_with 400 Error.invalid_status
update_user_status_failure e = refuse 500 "could not update user status"

abbrev pub status_bound : ℕ → Option String → ℕ → Handler World
status_bound admin_id body target_id w =
    bound body
      (λ status.
        respond_with (λ u. reply 200 (user_body u)) update_user_status_failure
          (Service.update_user_status admin_id target_id status))
      w

unfoldable pub update_user_status_handler : Option ℕ → Option ℤ → Option String → Handler World
update_user_status_handler user id body w =
    with_path_id id (status_bound (must_user_id user) body) w

abbrev pub health_status : Health → ℕ
health_status Health.down = 503
health_status h = 200

-- AdminHealth, of what the pings and dials answer.
unfoldable pub admin_health_handler : Bool → Option Bool → List Bool → Handler World
admin_health_handler database redis brokers w =
    let services = health database redis brokers in
    (reply (health_status services.database) (health_body services) ∷ [], w)

abbrev at_least_one : ℤ → ℤ
at_least_one (pos zero) = pos 1
at_least_one n = n

-- (total + pageSize - 1) / pageSize with Go's division, which rounds towards 0 and panics for 0, and
-- where the result is 0, 1.
unfoldable pub log_pages : ℕ → ℤ → Option ℤ
log_pages total (pos zero) = none
log_pages total (pos (suc n)) = some (at_least_one (pos ((total + n) / suc n)))
log_pages total (negsuc n) = some (
    at_least_one (
      if ltb (n + 2) total
      then (let q = (total - (n + 2)) / suc n in if q == 0 then pos 0 else negsuc (q - 1))
      else pos ((n + 2 - total) / suc n)))

-- gin.Recovery after a panic: AbortWithStatus, which writes no body.
abbrev pub recovered : Reply
recovered = record { status = 500; body = none }

abbrev pub logs_reply : ℤ → ℤ → List AuditLog × ℕ → Reply
logs_reply page page_size (logs, total) = elim (log_pages total page_size) [
  | none ↦ recovered
  | some pages ↦ reply 200 (
      logs_body (record {
        data_rows = logs;
        total = total;
        page = page;
        page_size = page_size;
        total_pages = pages;
      }))
]

abbrev list_logs_failure : Error → Reply
list_logs_failure e = refuse 500 "could not retrieve audit logs"

-- The number of the query user_id: there is none, or it is what ParseInt makes of the text. (A negative
-- number is treated as 0 is.)
abbrev pub with_user_id : Option (Option ℕ) → (Option ℕ → Handler World) → Handler World
with_user_id none h w = h none w
with_user_id (some none) h w = (refuse 400 "invalid user_id" ∷ [], w)
with_user_id (some (some id)) h w = h (some id) w

unfoldable pub audit_logs_handler : Option (Option ℕ) → String → ℤ → ℤ → Handler World
audit_logs_handler user action page page_size w =
    with_user_id user
      (λ id.
        respond_with (logs_reply page page_size) list_logs_failure
          (list_audit_logs id action (pos_part page) (pos_part page_size)))
      w
