-- ===== src/Tests/Jobs.antt =====
-- The expiry job and the pages at concrete inputs.
use multi_trade_platform.Base.{ℕ, ◌≡◌, ◌⊎◌, refl, Bool, true, List, ◌∷◌, some, find_row}
use multi_trade_platform.Store.{OrderStatus, statement, ◌>>=◌, ◌>>◌}
use multi_trade_platform.Order.Repository.{has_id}
use multi_trade_platform.Order.Service.{with_status}
use multi_trade_platform.Jobs.Expiry.{expire_stale_orders, IsDue, expire_stale_orders_effect}
use multi_trade_platform.Tests.Data.{world, bid}

-- Both orders of the table are due.
abbrev job_count : ℕ
job_count = 2

-- The order 21 was created at 21, before the cutoff.
expire_stale_orders_effect_example :
    ((job_count ≡ 0)
      × ((expire_stale_orders 50 world).1.db ≡ world.db)
      × ((fs : List Bool) × (world.faults ≡ true ∷ fs)))
    ⊎ (((expire_stale_orders 50 world).1.db
          ≡ record world.db { orders = (expire_stale_orders 50 world).1.db.orders })
        × ((IsDue 50 bid
              × (find_row (has_id 21) (expire_stale_orders 50 world).1.db.orders
                  ≡ some (with_status OrderStatus.cancelled bid)))
            ⊎ (¬ IsDue 50 bid
                × (find_row (has_id 21) (expire_stale_orders 50 world).1.db.orders ≡ some bid))))
unfolding expire_stale_orders statement ◌>>=◌ ◌>>◌
expire_stale_orders_effect_example =
    expire_stale_orders_effect 50 21 job_count bid world (expire_stale_orders 50 world).1 refl refl
