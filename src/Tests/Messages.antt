-- ===== src/Tests/Messages.antt =====
-- Messages of the topics at concrete tables.
use multi_trade_platform.Base.{◌≡◌, refl, List, true, false, [], ◌∷◌, none, some, ok}
use multi_trade_platform.Store.{World, AuditLog}
use multi_trade_platform.Audit.{entry}
use multi_trade_platform.Kafka.{
  RawMessage, Message, wrapped, unreadable, OrderEventPayload, TradeEventPayload, created_entry,
  buyer_entry, seller_entry, consume_all,
}
use multi_trade_platform.Kafka.Laws.{
  all_entries, Kept, with_logs, consume_all-Kept, consume_all_complete,
}
use multi_trade_platform.Tests.Data.{world}

abbrev order_placed : OrderEventPayload
order_placed = record {
  order_id = 21;
  user_id = 1;
  asset_id = 5;
  side = "BUY";
  price = "10.50000000";
  quantity = "2.00000000";
}

abbrev trade_done : TradeEventPayload
trade_done = record {
  trade_id = 31;
  asset_id = 5;
  price = "10.00000000";
  quantity = "2.00000000";
  buyer_id = 1;
  seller_id = 2;
}

abbrev no_payload : RawMessage
no_payload = record { order = none; trade = none; wallet = none }

-- The message of the wallet has no payload that can be read.
abbrev messages : List Message
messages =
    wrapped "order.created" (record no_payload { order = some order_placed })
    ∷ unreadable
    ∷ wrapped "trade.executed" (record no_payload { trade = some trade_done })
    ∷ wrapped "wallet.updated" no_payload
    ∷ []

consume_all_complete_example :
    (consume_all messages world).1.db
    ≡ with_logs
        (entry 100 (created_entry order_placed)
          ∷ entry 101 (buyer_entry trade_done)
          ∷ entry 102 (seller_entry trade_done)
          ∷ [])
        world.db
consume_all_complete_example = consume_all_complete messages world refl (refl, (refl, (refl, tt)))

abbrev failing_world : World
failing_world = record world { faults = false ∷ true ∷ [] }

consume_all-Kept_example :
    ((consume_all messages failing_world).0 ≡ ok tt)
    × (ls : List AuditLog) × Kept (all_entries messages) ls
    × ((consume_all messages failing_world).1.db ≡ with_logs ls failing_world.db)
consume_all-Kept_example = consume_all-Kept messages failing_world
