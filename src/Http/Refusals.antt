-- ===== src/Http/Refusals.antt =====
-- A handler that answers with a failure has changed no table: the groups of /wallet, /orders, /assets
-- and /admin.
use Prim.Native.String.{String}
use multi_trade_platform.Base.{ℕ, ◌≤◌, ◌≡◌, refl, ap, ◌∙◌, arith, Option, none, some, err, find_row}
use multi_trade_platform.Base.Int.{ℤ, pos_part}
use multi_trade_platform.Store.{World, Db, Error, M}
use multi_trade_platform.Store.Laws.{IsAtomic}
use multi_trade_platform.Wallet.{get_wallet, deposit, withdraw, list_user_transactions}
use multi_trade_platform.Wallet.Laws.{deposit_error, withdraw_error}
use multi_trade_platform.Order.Repository.{has_id}
use multi_trade_platform.Order.Service.{
  place_order, cancel_order, get_order, list_orders, PlaceOrderInput, Placement,
}
use multi_trade_platform.Order.Service.Laws.{
  place_order_error, cancel_order_error, cancel_order_effect,
}
use multi_trade_platform.User.{with_id as with_user}
use multi_trade_platform.Admin as Service
use multi_trade_platform.Admin.{list_audit_logs}
use multi_trade_platform.Admin.Laws.{update_user_status_effect, update_user_status_error}
use multi_trade_platform.Http.Reading.{
  get_wallet-IsReading, list_user_transactions-IsReading, get_order-IsReading,
  list_orders-IsReading, list_users-IsReading, list_audit_logs-IsReading,
}
use multi_trade_platform.Http.Keeps.{
  Keeps, bound-Keeps, with_path_id-Keeps, respond_with-Keeps, respond_with-Keeps_read,
  respond_leaves, leaves_absent,
}
use multi_trade_platform.Http.Wallets.{
  get_wallet_handler, deposit_handler, withdraw_handler, list_transactions_handler, moved_reply,
}
use multi_trade_platform.Http.Orders.{
  place_order_handler, cancel_order_handler, get_order_handler, list_orders_handler,
  place_order_reply, with_header,
}
use multi_trade_platform.Http.Admin.{
  list_users_handler, update_user_status_handler, admin_health_handler, audit_logs_handler,
  status_bound,
}
use multi_trade_platform.Http.Routes.{
  AdminRequest, users_list, user_status, system_health, audit_list, jobs_expire, jobs_reconcile,
  jobs_verify, admin_handler, counted_handler, Environment, WalletRequest, wallet_read,
  wallet_deposit, wallet_withdraw, wallet_transactions, wallet_handler, OrderRequest, order_place,
  order_list, order_read, order_cancel, order_handler,
}

abbrev pub tables : World → Db
tables w = w.db

-- From what is known of a call and its result together.
split-IsAtomic :
    {A : Type 0} (m : M A)
    → ((w : World) (e : Error) (w' : World) → m w ≡ (err e, w') → w'.db ≡ w.db)
    → IsAtomic m
split-IsAtomic m error w e h = error w e (m w).1 (ap (λ r. (r, (m w).1)) h)

pub wallet_handler-Keeps :
    (user : ℕ) (r : WalletRequest) (w : World) → Keeps tables (wallet_handler user r) w
unfolding wallet_handler get_wallet_handler deposit_handler withdraw_handler
    list_transactions_handler
wallet_handler-Keeps user wallet_read w =
    respond_with-Keeps_read tables _ _ (get_wallet user) w (get_wallet-IsReading user w)
wallet_handler-Keeps user (wallet_deposit body) w = bound-Keeps tables body _ w λ input.
    respond_with-Keeps tables moved_reply _ (deposit user input) w (λ a. omega arith)
      (split-IsAtomic (deposit user input) (deposit_error user input) w)
wallet_handler-Keeps user (wallet_withdraw body) w = bound-Keeps tables body _ w λ input.
    respond_with-Keeps tables moved_reply _ (withdraw user input) w (λ a. omega arith)
      (split-IsAtomic (withdraw user input) (withdraw_error user input) w)
wallet_handler-Keeps user (wallet_transactions page size) w =
    respond_with-Keeps_read tables _ _ (list_user_transactions user page size) w
      (list_user_transactions-IsReading user page size w)

place_order_reply_small :
    (input : PlaceOrderInput) (p : Placement) → (place_order_reply input p).status ≤ 399
place_order_reply_small input p = ground arith

cancel_zero :
    (user : ℕ) (w : World)
    → find_row (has_id 0) w.db.orders ≡ none
    → (cancel_order user 0 w).1.db ≡ w.db
cancel_zero user w absent =
    leaves_absent tables (cancel_order user 0) w
      (split-IsAtomic (cancel_order user 0) (cancel_order_error user 0) w)
      λ o h.
        let (before, found, own, opened, answered, after) =
          cancel_order_effect user 0 w o (cancel_order user 0 w).1
            (ap (λ r. (r, (cancel_order user 0 w).1)) h) in
        absurd (ground arith)

pub order_handler-Keeps :
    (user : ℕ) (r : OrderRequest) (w : World)
    → find_row (has_id 0) w.db.orders ≡ none
    → Keeps tables (order_handler user r) w
unfolding order_handler place_order_handler cancel_order_handler get_order_handler
    list_orders_handler
order_handler-Keeps user (order_place body key) w absent = bound-Keeps tables body _ w λ input.
    respond_with-Keeps tables (place_order_reply (with_header key input)) _
      (place_order user (with_header key input)) w (place_order_reply_small (with_header key input))
      (split-IsAtomic (place_order user (with_header key input))
        (place_order_error user (with_header key input)) w)
order_handler-Keeps user (order_list page size) w absent =
    respond_with-Keeps_read tables _ _ (list_orders user page size) w
      (list_orders-IsReading user page size w)
order_handler-Keeps user (order_read id) w absent =
    with_path_id-Keeps tables id _ w
      (respond_leaves tables _ _ (get_order user 0) w ∙ get_order-IsReading user 0 w)
      λ n. respond_with-Keeps_read tables _ _ (get_order user n) w (get_order-IsReading user n w)
order_handler-Keeps user (order_cancel id) w absent =
    with_path_id-Keeps tables id _ w
      (respond_leaves tables _ _ (cancel_order user 0) w ∙ cancel_zero user w absent)
      λ n.
        respond_with-Keeps tables _ _ (cancel_order user n) w (λ o. omega arith)
          (split-IsAtomic (cancel_order user n) (cancel_order_error user n) w)

status_zero :
    (admin : ℕ) (status : String) (w : World)
    → find_row (with_user 0) w.db.users ≡ none
    → (Service.update_user_status admin 0 status w).1.db ≡ w.db
status_zero admin status w absent =
    leaves_absent tables (Service.update_user_status admin 0 status) w
      (split-IsAtomic (Service.update_user_status admin 0 status)
        (update_user_status_error admin 0 status) w)
      λ u h.
        let (valid, (x, found, shape), logged) =
          update_user_status_effect admin 0 status w u
            (Service.update_user_status admin 0 status w).1
            (ap (λ r. (r, (Service.update_user_status admin 0 status w).1)) h) in
        absurd (ground arith)

status_zero_bound :
    (admin : ℕ) (body : Option String) (w : World)
    → find_row (with_user 0) w.db.users ≡ none
    → (status_bound admin body 0 w).1.db ≡ w.db
status_zero_bound admin none w absent = refl
status_zero_bound admin (some status) w absent =
    respond_leaves tables _ _ (Service.update_user_status admin 0 status) w
    ∙ status_zero admin status w absent

status_bound-Keeps :
    (admin : ℕ) (body : Option String) (id : ℕ) (w : World)
    → Keeps tables (status_bound admin body id) w
status_bound-Keeps admin body id w = bound-Keeps tables body _ w λ status.
    respond_with-Keeps tables _ _ (Service.update_user_status admin id status) w (λ u. omega arith)
      (split-IsAtomic (Service.update_user_status admin id status)
        (update_user_status_error admin id status) w)

audit_logs-Keeps :
    (user : Option (Option ℕ)) (action : String) (page size : ℤ) (w : World)
    → Keeps tables (audit_logs_handler user action page size) w
unfolding audit_logs_handler Keeps
audit_logs-Keeps none action page size w = λ refused.
    respond_leaves tables _ _ (list_audit_logs none action (pos_part page) (pos_part size)) w
    ∙ list_audit_logs-IsReading none action (pos_part page) (pos_part size) w
audit_logs-Keeps (some none) action page size w = λ refused. refl
audit_logs-Keeps (some (some id)) action page size w = λ refused.
    respond_leaves tables _ _ (list_audit_logs (some id) action (pos_part page) (pos_part size)) w
    ∙ list_audit_logs-IsReading (some id) action (pos_part page) (pos_part size) w

counted-Keeps : (m : M ℕ) (w : World) → Keeps tables (counted_handler m) w
unfolding counted_handler Keeps
counted-Keeps m w = λ refused. absurd (omega arith)

pub admin_handler-Keeps :
    (env : Environment) (user : ℕ) (r : AdminRequest) (w : World)
    → find_row (with_user 0) w.db.users ≡ none
    → Keeps tables (admin_handler env user r) w
unfolding admin_handler list_users_handler update_user_status_handler admin_health_handler Keeps
admin_handler-Keeps env user (users_list role status page size) w absent = λ refused.
    respond_leaves tables _ _ (Service.list_users role status page size) w
    ∙ list_users-IsReading role status page size w
admin_handler-Keeps env user (user_status id body) w absent =
    unfold Keeps in
    with_path_id-Keeps tables id (status_bound user body) w (status_zero_bound user body w absent)
      λ n. status_bound-Keeps user body n w
admin_handler-Keeps env user system_health w absent = λ refused. refl
admin_handler-Keeps env user (audit_list id action page size) w absent =
    audit_logs-Keeps id action page size w
admin_handler-Keeps env user jobs_expire w absent = counted-Keeps _ w
admin_handler-Keeps env user jobs_reconcile w absent = counted-Keeps _ w
admin_handler-Keeps env user jobs_verify w absent = counted-Keeps _ w
