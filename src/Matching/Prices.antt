-- ===== src/Matching/Prices.antt =====
-- executor.go, after the commit: the price of the trade goes into the cache of the asset service. The
-- message on the Redis channel and the one on Kafka are not modelled.
use multi_trade_platform.Base.{
  ℕ, ◌*◌, ◌^◌, ◌<◌, ◌≡◌, refl, sym, ap, ◌∙◌, arith, [], Option, none, some, Result, ok, err,
}
use multi_trade_platform.Store.{
  World, Error, Db, Order, Wallet, Trade, Holding, Asset, numeric_limit,
}
use multi_trade_platform.Asset.Cache.{Cache, set_price, get_price}
use multi_trade_platform.Asset.Service.{Site, after, priced, get}
use multi_trade_platform.Asset.Coherence.{find_asset}
use multi_trade_platform.Asset.Ends.{Untouched, Ends, get_asset-Ends}
use multi_trade_platform.Matching.Executor.{execute_trade, buy_order_id, sell_order_id}
use multi_trade_platform.Matching.Executor.Settlement.{Parties}
use multi_trade_platform.Matching.Numbers.{IsStored, tradable}
use multi_trade_platform.Matching.Laws.{execute_trade_effect}

abbrev pub cache_trade : Option Trade → Cache → Option Trade × Cache
cache_trade none c = (none, c)
cache_trade (some t) c = (some t, set_price t.asset_id t.price c)

-- executeTrade with the cache that the engine has.
unfoldable pub execute_trade_on : Order → Order → Site → Result Error (Option Trade) × Site
execute_trade_on incoming candidate v = after (execute_trade incoming candidate) cache_trade v

traded_on :
    (r : Result Error (Option Trade) × World) (v : Site) (t : Trade) (v' : Site)
    → v.cache.faults ≡ []
    → after (λ w. r) cache_trade v ≡ (ok (some t), v')
    → (r ≡ (ok (some t), v'.world))
      × (v'.cache.faults ≡ [])
      × (v'.cache.price t.asset_id ≡ some t.price)
unfolding after set_price
traded_on (ok none, w₁) v t v' up e = absurd (ground arith)
traded_on (ok (some k), w₁) v t v' up e =
    let same : k ≡ t = ground arith in (ground arith, ground arith, ground arith)
traded_on (err x, w₁) v t v' up e = absurd (ground arith)

-- What a read shows of a row that has a price in the cache.
shown_cached :
    (id p : ℕ) (n : Asset) (v : Site) (r : Result Error Asset × World) (a : Asset) (v' : Site)
    → v.cache.faults ≡ []
    → v.cache.price id ≡ some p
    → find_asset id v.world.db.assets ≡ some n
    → Ends (λ b w₁. (find_asset id v.world.db.assets ≡ some b) × Untouched v.world w₁) v.world r
    → after (λ w. r) (priced id) v ≡ (ok a, v')
    → a ≡ record n { price = p }
unfolding after priced get_price Ends
shown_cached id p n v (ok b, w₁) a v' up cached row (found, same) e =
    let one : b ≡ n = ground arith in ground arith
shown_cached id p n v (err x, w₁) a v' up cached row same e = absurd (ground arith)

-- After a trade that the engine reports, while Redis answers, an asset that GetAsset returns for its asset
-- has the price of the order that rested in the book, whatever price the row has, which is not written,
-- and whatever price was in the cache. For amounts that fit their columns, a cost that is a whole number
-- of units, and a seller who holds the asset.
pub get-execute_trade_on :
    (incoming candidate b s : Order) (x y : Wallet) (h : Holding) (c : ℕ) (v : Site) (t : Trade)
    (v' : Site) (n a : Asset) (v'' : Site)
    → buy_order_id incoming candidate ≡ b.id
    → sell_order_id incoming candidate ≡ s.id
    → IsStored b
    → IsStored s
    → tradable b s * candidate.price ≡ c * 10 ^ 8
    → candidate.price < numeric_limit
    → c < numeric_limit
    → Parties v.world.db b s x y h
    → v.cache.faults ≡ []
    → find_asset b.asset_id v.world.db.assets ≡ some n
    → execute_trade_on incoming candidate v ≡ (ok (some t), v')
    → get b.asset_id v' ≡ (ok a, v'')
    → (a ≡ record n { price = candidate.price })
      × (find_asset b.asset_id v'.world.db.assets ≡ some n)
unfolding execute_trade_on get after
get-execute_trade_on incoming candidate b s x y h c v t v' n a v'' buying selling b_stored s_stored
      exact p_fits c_fits parties up row e shown =
    let (run, still_up, cached) =
      traded_on (execute_trade incoming candidate v.world) v t v' up e in
    let (able, settles) =
      execute_trade_effect incoming candidate b s x y h c v.world t v'.world buying selling b_stored
        s_stored exact p_fits c_fits parties run in
    let same : v'.world.db.assets ≡ v.world.db.assets = ap (λ (d : Db). d.assets) settles.tables in
    let there : find_asset b.asset_id v'.world.db.assets ≡ some n = rw same row in
    let stored : v'.cache.price b.asset_id ≡ some candidate.price =
      sym (ap v'.cache.price settles.joins.asset) ∙ cached ∙ ap some settles.joins.at_price in
    (
      shown_cached b.asset_id candidate.price n v' _ a v'' still_up stored there
          (get_asset-Ends b.asset_id v'.world v'.world (refl, refl)) shown,
      there,
    )
