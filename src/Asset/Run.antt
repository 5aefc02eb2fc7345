-- ===== src/Asset/Run.antt =====
-- Sequences of the asset service's calls on one asset; ListActiveAssets is not among them.
use multi_trade_platform.Base.{
  ℕ, ◌≡◌, refl, sym, ap, ◌∙◌, arith, Bool, true, List, [], ◌∷◌, Option, some, Result, ok, err, inl,
  inr,
}
use multi_trade_platform.Store.{World, Error, Asset}
use multi_trade_platform.Asset.Cache.{expire, set_price, invalidate_price, get_price}
use multi_trade_platform.Asset.Service.{
  Site, CreateAssetInput, UpdateAssetInput, after, cache_price, renew_price, drop_price, priced,
  get, disable, create, update,
}
use multi_trade_platform.Asset.Ends.{
  Untouched, Ends, get_asset-Ends, disable_asset-Ends, update_row-Ends, create_row-Ends,
}
use multi_trade_platform.Asset.Coherence.{
  find_asset, IsSound, Adds-Writes, Rewrites-Writes, cache_price-IsAbout, renew_price-IsAbout,
  drop_price-IsAbout, Ends-map, written_IsSound, priced_shown, read_IsSound,
}

-- What happens to the site: the calls of its service on one asset, and a key of the cache that expires.
pub data Event : Type 0 where
  asset_created : ℕ → CreateAssetInput → Event
  asset_updated : ℕ → ℕ → UpdateAssetInput → Event
  asset_disabled : ℕ → ℕ → Event
  asset_read : ℕ → Event
  price_expired : ℕ → Event

module _ (front_positive : Bool) where
  unfoldable pub perform : Event → Site → Site
  perform (asset_created broker_id input) s = (create front_positive broker_id input s).1
  perform (asset_updated broker_id id input) s = (update front_positive broker_id id input s).1
  perform (asset_disabled broker_id id) s = (disable broker_id id s).1
  perform (asset_read id) s = (get id s).1
  perform (price_expired id) s = record s { cache = expire id s.cache }

  unfoldable pub perform_all : List Event → Site → Site
  perform_all [] s = s
  perform_all (e ∷ es) s = perform_all es (perform e s)

  price_expired-IsSound :
      (id : ℕ) (s : Site) → IsSound s → IsSound (record s { cache = expire id s.cache })
  price_expired-IsSound id s sound = record {
    redis_up = sound.redis_up;
    fresh = sound.fresh;
    coherent = λ n q cached. sound.coherent n q (ground arith);
  }

  perform-IsSound : (e : Event) (s : Site) → IsSound s → IsSound (perform e s)
  unfolding perform create update disable get after
  perform-IsSound (asset_created broker_id input) s sound =
      written_IsSound cache_price cache_price-IsAbout s _ sound (
        Ends-map _ _ s.world _ (λ a w₁. Adds-Writes s.world a w₁ sound.fresh)
          (create_row-Ends front_positive broker_id input s.world))
  perform-IsSound (asset_updated broker_id id input) s sound =
      written_IsSound renew_price renew_price-IsAbout s _ sound (
        Ends-map _ _ s.world _ (λ a w₁. Rewrites-Writes id s.world a w₁ sound.fresh)
          (update_row-Ends front_positive broker_id id input s.world))
  perform-IsSound (asset_disabled broker_id id) s sound =
      written_IsSound drop_price drop_price-IsAbout s _ sound (
        Ends-map _ _ s.world _ (λ a w₁. Rewrites-Writes id s.world a w₁ sound.fresh)
          (disable_asset-Ends broker_id id s.world))
  perform-IsSound (asset_read id) s sound =
      read_IsSound id s _ sound (get_asset-Ends id s.world s.world (refl, refl))
  perform-IsSound (price_expired id) s sound = price_expired-IsSound id s sound

  perform_all-IsSound : (es : List Event) (s : Site) → IsSound s → IsSound (perform_all es s)
  unfolding perform_all
  perform_all-IsSound [] s sound = sound
  perform_all-IsSound (e ∷ es) s sound =
      perform_all-IsSound es (perform e s) (perform-IsSound e s sound)

shown_row :
    (id : ℕ) (s : Site) (r : Result Error Asset × World) (a : Asset) (s' : Site)
    → IsSound s
    → Ends (λ b w₁. (find_asset id s.world.db.assets ≡ some b) × Untouched s.world w₁) s.world r
    → after (λ w. r) (priced id) s ≡ (ok a, s')
    → (find_asset id s.world.db.assets ≡ some a) × (s'.world.db ≡ s.world.db)
unfolding after Ends
shown_row id s (ok b, w₁) a s' sound (found, same) e =
    let shown : a ≡ (priced id b s.cache).0 = ground arith in
    elim (priced_shown id b s.cache) [
      | inl own ↦ (ground arith, ground arith)
      | inr (p, cached, new) ↦
          let (row, there, price) = sound.coherent id p cached in
          let one : row ≡ b = ground arith in
          let value : p ≡ b.price = sym price ∙ ap Asset.price one in
          let own : a ≡ b = shown ∙ new ∙ ap (λ (n : ℕ). record b { price = n }) value in
          (found ∙ ap some (sym own), ground arith)
    ]
shown_row id s (err x, w₁) a s' sound same e = absurd (ground arith)

-- Two failing calls leave the cache as it was.
stale_cache :
    (r : Result Error Asset × World) (s : Site) (a : Asset) (s' : Site)
    → s.cache.faults ≡ true ∷ true ∷ []
    → after (λ w. r) renew_price s ≡ (ok a, s')
    → (s'.cache.price ≡ s.cache.price) × (s'.cache.faults ≡ [])
unfolding after set_price invalidate_price
stale_cache (ok b, w₁) s a s' down e = (ground arith, ground arith)
stale_cache (err x, w₁) s a s' down e = absurd (ground arith)

stale_read :
    (id : ℕ) (r : Result Error Asset × World) (s : Site) (a : Asset) (s' : Site) (p : ℕ)
    → s.cache.faults ≡ []
    → s.cache.price id ≡ some p
    → after (λ w. r) (priced id) s ≡ (ok a, s')
    → a.price ≡ p
unfolding after priced get_price
stale_read id (ok b, w₁) s a s' p up cached e = ground arith
stale_read id (err x, w₁) s a s' p up cached e = absurd (ground arith)

-- From a site in which Redis answers, every cached price is that of its asset and the ids of the
-- sequence from now on are unused: whichever calls of CreateAsset, UpdateAsset, DisableAsset and
-- GetAsset are made, whichever keys expire and whichever statements of the database fail, an asset
-- that GetAsset returns is the row of the table, its price included, and the read changes no
-- table.
pub get-current :
    (front_positive : Bool) (es : List Event) (s : Site) (id : ℕ) (a : Asset) (s' : Site)
    → IsSound s
    → get id (perform_all front_positive es s) ≡ (ok a, s')
    → (find_asset id (perform_all front_positive es s).world.db.assets ≡ some a)
      × (s'.world.db ≡ (perform_all front_positive es s).world.db)
unfolding get after
get-current front_positive es s id a s' sound e =
    let s₁ = perform_all front_positive es s in
    shown_row id s₁ _ a s' (perform_all-IsSound front_positive es s sound)
      (get_asset-Ends id s₁.world s₁.world (refl, refl)) e

-- If both calls of Redis fail while UpdateAsset succeeds and the asset had a cached price, then GetAsset goes on to
-- show the old cached price.
pub update_stale :
    (front_positive : Bool) (broker_id id p : ℕ) (input : UpdateAssetInput) (s s' s₂ : Site)
    (a b : Asset)
    → s.cache.price id ≡ some p
    → s.cache.faults ≡ true ∷ true ∷ []
    → update front_positive broker_id id input s ≡ (ok a, s')
    → get id s' ≡ (ok b, s₂)
    → b.price ≡ p
unfolding update get after
update_stale front_positive broker_id id p input s s' s₂ a b cached down updated shown =
    let (prices, up) = stale_cache _ s a s' down updated in
    stale_read id _ s' b s₂ p up (ap (λ (f : ℕ → Option ℕ). f id) prices ∙ cached) shown
