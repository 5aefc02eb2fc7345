-- ===== src/Kafka.antt =====
-- internal/kafka: events.go, and what consumer.go does with a message that it has read. One call of
-- `consume_audit` is one turn of a consumer's loop.
pub mod Laws
use Prim.Native.String.{String}
use text.Mathlib.Text.{◌==◌ as str_eq}
use multi_trade_platform.Base.{ℕ, List, [], ◌∷◌, Option, none, some, if◌then◌else◌}
use multi_trade_platform.Store.{
  M, pure, attempt, ◌>>◌, Details, created_text, cancelled_text, buyer_text, seller_text,
  wallet_text,
}
use multi_trade_platform.Audit.{NewEntry, create}

pub record OrderEventPayload : Type 0 where
  pub order_id : ℕ
  pub user_id : ℕ
  pub asset_id : ℕ
  pub side : String
  pub price : String
  pub quantity : String

pub record TradeEventPayload : Type 0 where
  pub trade_id : ℕ
  pub asset_id : ℕ
  pub price : String
  pub quantity : String
  pub buyer_id : ℕ
  pub seller_id : ℕ

pub record WalletEventPayload : Type 0 where
  pub wallet_id : ℕ
  pub user_id : ℕ
  pub balance : String
  pub change_amount : String
  pub transaction_type : String

-- A payload in JSON: what Unmarshal makes of it for each of the types.
pub record RawMessage : Type 0 where
  pub order : Option OrderEventPayload
  pub trade : Option TradeEventPayload
  pub wallet : Option WalletEventPayload

-- WrappedEvent, or a message that is none.
pub data Message : Type 0 where
  unreadable : Message
  wrapped : String → RawMessage → Message

abbrev entry_of : ℕ → String → Details → NewEntry
entry_of user_id action details = record {
  user_id = some user_id;
  action = action;
  details = some details;
  ip_address = none;
}

abbrev pub created_entry : OrderEventPayload → NewEntry
created_entry p =
    entry_of p.user_id "ORDER_CREATED"
      (created_text p.order_id p.side p.quantity p.asset_id p.price)

abbrev pub cancelled_entry : OrderEventPayload → NewEntry
cancelled_entry p = entry_of p.user_id "ORDER_CANCELLED" (cancelled_text p.order_id)

abbrev pub buyer_entry : TradeEventPayload → NewEntry
buyer_entry p =
    entry_of p.buyer_id "TRADE_EXECUTED"
      (buyer_text p.trade_id p.seller_id p.quantity p.asset_id p.price)

abbrev pub seller_entry : TradeEventPayload → NewEntry
seller_entry p =
    entry_of p.seller_id "TRADE_EXECUTED"
      (seller_text p.trade_id p.buyer_id p.quantity p.asset_id p.price)

abbrev pub wallet_entry : WalletEventPayload → NewEntry
wallet_entry p =
    entry_of p.user_id "WALLET_UPDATED"
      (wallet_text p.wallet_id p.change_amount p.transaction_type p.balance)

-- An entry that cannot be written is only logged.
unfoldable pub write_entry : NewEntry → M (Unit {0})
write_entry n = attempt (create n) >> pure tt

unfoldable pub write_some : {A : Type 0} → Option A → (A → M (Unit {0})) → M (Unit {0})
write_some none f = pure tt
write_some (some a) f = f a

-- One turn of the loop of StartAuditConsumer.
unfoldable pub consume_audit : Message → M (Unit {0})
consume_audit unreadable = pure tt
consume_audit (wrapped type raw) =
    if str_eq type "order.created"
    then write_some raw.order (λ p. write_entry (created_entry p))
    else if str_eq type "order.cancelled"
    then write_some raw.order (λ p. write_entry (cancelled_entry p))
    else if str_eq type "trade.executed"
    then write_some raw.trade (λ p. write_entry (buyer_entry p) >> write_entry (seller_entry p))
    else if str_eq type "wallet.updated"
    then write_some raw.wallet (λ p. write_entry (wallet_entry p))
    else pure tt

unfoldable pub consume_all : List Message → M (Unit {0})
consume_all [] = pure tt
consume_all (m ∷ ms) = consume_audit m >> consume_all ms

-- What StartNotificationConsumer prints.
pub data Notice : Type 0 where
  order_created order_cancelled : OrderEventPayload → Notice
  trade_executed : TradeEventPayload → Notice
  wallet_updated : WalletEventPayload → Notice

abbrev pub notified : {A : Type 0} → (A → Notice) → Option A → Option Notice
notified f none = none
notified f (some a) = some (f a)

unfoldable pub consume_notification : Message → Option Notice
consume_notification unreadable = none
consume_notification (wrapped type raw) =
    if str_eq type "order.created"
    then notified order_created raw.order
    else if str_eq type "order.cancelled"
    then notified order_cancelled raw.order
    else if str_eq type "trade.executed"
    then notified trade_executed raw.trade
    else if str_eq type "wallet.updated"
    then notified wallet_updated raw.wallet
    else none
