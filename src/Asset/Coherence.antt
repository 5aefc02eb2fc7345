-- ===== src/Asset/Coherence.antt =====
-- The cache of prices agrees with the table while Redis answers, whatever the database does.
use multi_trade_platform.Base.{
  ℕ, ◌≡◌, ◌≤◌, refl, sym, ◌∙◌, ap, subst, arith, false, List, [], ◌∷◌, Option, none, some, Result,
  ok, err, ◌==◌, ◌⊎◌, Bool-cases, Option-cases, inl, inr, find_row, find_row-holds,
  find_row-update_rows_hit, find_row-update_rows_other, find_row-append_absent,
  find_row-append_other, find_row_narrower,
}
use multi_trade_platform.Store.{World, Error, Asset}
use multi_trade_platform.Order.Service.{has_asset_id}
use multi_trade_platform.Asset.{is_asset_of, updated_asset}
use multi_trade_platform.Asset.Cache.{Cache, put, set_price, get_price, invalidate_price}
use multi_trade_platform.Asset.Ends.{Untouched, Ends, Rewrites, Adds}
use multi_trade_platform.Asset.Service.{Site, after, cache_price, renew_price, drop_price, priced}

abbrev pub find_asset : ℕ → List Asset → Option Asset
find_asset id assets = find_row (has_asset_id id) assets

-- Redis answers, every cached price is the price of its asset, and ids from `serial` on are not in use.
pub record IsSound (s : Site) : Type 0 where
  pub redis_up : s.cache.faults ≡ []
  pub fresh : (n : ℕ) → s.world.serial ≤ n → find_asset n s.world.db.assets ≡ none
  pub coherent :
      (id p : ℕ)
      → s.cache.price id ≡ some p
      → (a : Asset) × (find_asset id s.world.db.assets ≡ some a) × (a.price ≡ p)

-- What a call that writes one asset does to the table.
pub record Writes (w : World) (a : Asset) (w₁ : World) : Type 0 where
  pub found : find_asset a.id w₁.db.assets ≡ some a
  pub others : (n : ℕ) → (a.id == n) ≡ false → find_asset n w₁.db.assets ≡ find_asset n w.db.assets
  pub used : (n : ℕ) → w₁.serial ≤ n → (w.serial ≤ n) × ((a.id == n) ≡ false)

abbrev pub IsFresh : World → Type 0
IsFresh w = (n : ℕ) → w.serial ≤ n → find_asset n w.db.assets ≡ none

pub Adds-Writes : (w : World) (a : Asset) (w₁ : World) → IsFresh w → Adds w a w₁ → Writes w a w₁
Adds-Writes w a w₁ fresh (id_eq, serial_eq, rows) = record {
  found =
      let unused = fresh a.id (omega arith) in
      rw (rows, find_row-append_absent (has_asset_id a.id) w.db.assets (a ∷ []) unused)
        (ground arith);
  others = λ n other. rw (rows, find_row-append_other (has_asset_id n) w.db.assets a other) refl;
  used = λ n le. (omega arith, ground arith);
}

pub Rewrites-Writes :
    (id : ℕ) (w : World) (a : Asset) (w₁ : World) → IsFresh w → Rewrites id w a w₁ → Writes w a w₁
Rewrites-Writes id w a w₁ fresh
      (read, at_id, (before, price, quantity, status, found, written, rows, serial_eq)) =
    let read_id : read.id ≡ id =
      let h = find_row-holds (has_asset_id id) w.db.assets read at_id in ground arith in
    let again =
      find_row_narrower (has_asset_id id) (is_asset_of read.id read.broker_id) w.db.assets read
        (λ x h. ground arith) (ground arith) at_id in
    let same : before ≡ read = ground arith in
    let id_eq : a.id ≡ id = ground arith in
    record {
      found =
          let hit =
            find_row-update_rows_hit (has_asset_id id) (is_asset_of read.id read.broker_id)
              (updated_asset price quantity status) w.db.assets read (λ x. refl) (ground arith)
              at_id in
          let row : updated_asset price quantity status read ≡ a =
            ap (updated_asset price quantity status) (sym same) ∙ sym written in
          subst (λ k. find_asset k w₁.db.assets ≡ some a) (sym id_eq) (rw (rows, hit, row) refl);
      others = λ n other.
          let unchanged =
            find_row-update_rows_other (has_asset_id n) (is_asset_of read.id read.broker_id)
              (updated_asset price quantity status) w.db.assets (λ x. refl) (λ x h. ground arith) in
          rw (rows, unchanged) refl;
      used = λ n le.
          let in_use = fresh id in
          (
            omega arith,
            elim (Bool-cases (a.id == n)) [
              | inr ne ↦ ne
              | inl eq ↦ let clash = in_use (ground arith) in absurd (ground arith)
            ],
          );
    }

-- What a call that writes an asset leaves in the cache: its price, or none.
abbrev pub IsAbout : (Asset → Cache → Asset × Cache) → Type 0
IsAbout f =
    (a : Asset) (c : Cache)
    → c.faults ≡ []
    → (p : Option ℕ) × ((p ≡ none) ⊎ (p ≡ some a.price))
      × ((n : ℕ) → (f a c).1.price n ≡ put a.id p c.price n)
      × ((f a c).1.faults ≡ [])

module _ (f : Asset → Cache → Asset × Cache) (about : IsAbout f) where
  pub written_IsSound :
      (s : Site) (r : Result Error Asset × World)
      → IsSound s
      → Ends (Writes s.world) s.world r
      → IsSound (after (λ w. r) f s).1
  unfolding after Ends
  written_IsSound s (ok a, w₁) sound done =
      let (p, value, put_eq, still_up) = about a s.cache sound.redis_up in
      record {
        redis_up = still_up;
        fresh =
            λ n le. let (before, ne) = done.used n le in done.others n ne ∙ sound.fresh n before;
        coherent = λ n q cached. elim (Bool-cases (a.id == n)) [
          | inl same ↦
              let here : a.id ≡ n = ground arith in
              let stored = put_eq n in
              (
                a,
                subst (λ k. find_asset k w₁.db.assets ≡ some a) here done.found,
                elim value [ inl dropped ↦ absurd (ground arith) | inr kept ↦ ground arith ],
              )
          | inr ne ↦
              let stored = put_eq n in
              let (b, found, price) = sound.coherent n q (ground arith) in
              (b, done.others n ne ∙ found, price)
        ];
      }
  written_IsSound s (err e, w₁) sound done = record {
    redis_up = sound.redis_up;
    fresh = λ n le. rw done.0 (sound.fresh n (omega (arith, done.1)));
    coherent = λ n q cached.
        let (a, found, price) = sound.coherent n q cached in (a, rw done.0 found, price);
  }

pub cache_price-IsAbout : IsAbout cache_price
unfolding set_price
cache_price-IsAbout a c up = (some a.price, inr refl, λ n. rw up refl, rw up refl)

pub renew_price-IsAbout : IsAbout renew_price
unfolding set_price invalidate_price
renew_price-IsAbout a c up = (some a.price, inr refl, λ n. rw up (ground arith), rw up refl)

pub drop_price-IsAbout : IsAbout drop_price
unfolding invalidate_price
drop_price-IsAbout a c up = (none, inl refl, λ n. rw up refl, rw up refl)

pub Ends-map :
    {A : Type 0} (P Q : A → World → Type 0) (w : World) (r : Result Error A × World)
    → ((a : A) (w₁ : World) → P a w₁ → Q a w₁)
    → Ends P w r
    → Ends Q w r
unfolding Ends
Ends-map P Q w (ok a, w₁) implies done = implies a w₁ done
Ends-map P Q w (err e, w₁) implies done = done

-- What a read of a price leaves in the cache at a key.
pub priced_stored :
    (id : ℕ) (a : Asset) (c : Cache) (n : ℕ)
    → c.faults ≡ []
    → ((priced id a c).1.price n ≡ c.price n)
      ⊎ ((n ≡ id) × ((priced id a c).1.price n ≡ some a.price))
unfolding priced get_price set_price
priced_stored id a c n up = elim (Option-cases (c.price id)) [
  | inr (p, e) ↦ inl (ground arith)
  | inl e ↦ elim (Bool-cases (n == id)) [
    | inl h ↦ inr (ground arith, ground arith)
    | inr h ↦ inl (ground arith)
  ]
]

pub priced_up : (id : ℕ) (a : Asset) (c : Cache) → c.faults ≡ [] → (priced id a c).1.faults ≡ []
unfolding priced get_price set_price
priced_up id a c up = elim (Option-cases (c.price id)) [
  | inr (p, e) ↦ ground arith
  | inl e ↦ ground arith
]

-- The asset that a read shows: the row, with its own price or the cached one.
pub priced_shown :
    (id : ℕ) (a : Asset) (c : Cache)
    → ((priced id a c).0 ≡ a)
      ⊎ ((p : ℕ) × (c.price id ≡ some p) × ((priced id a c).0 ≡ record a { price = p }))
unfolding priced get_price set_price
priced_shown id a c = elim (Option-cases (get_price id c).0) [
  | inl e ↦ inl (ground arith)
  | inr (p, e) ↦ inr (p, ground arith, ground arith)
]

pub read_IsSound :
    (id : ℕ) (s : Site) (r : Result Error Asset × World)
    → IsSound s
    → Ends (λ a w₁. (find_asset id s.world.db.assets ≡ some a) × Untouched s.world w₁) s.world r
    → IsSound (after (λ w. r) (priced id) s).1
unfolding after Ends priced get_price set_price
read_IsSound id s (ok a, w₁) sound (found, same) = record {
  redis_up = priced_up id a s.cache sound.redis_up;
  fresh = λ n le. rw same.0 (sound.fresh n (omega (arith, same.1)));
  coherent = λ n q cached. elim (priced_stored id a s.cache n sound.redis_up) [
    | inl kept ↦
        let (b, there, price) = sound.coherent n q (ground arith) in (b, rw same.0 there, price)
    | inr (here, new) ↦ (a, rw (same.0, here) found, ground arith)
  ];
}
read_IsSound id s (err e, w₁) sound same = record {
  redis_up = sound.redis_up;
  fresh = λ n le. rw same.0 (sound.fresh n (omega (arith, same.1)));
  coherent = λ n q cached.
      let (a, found, price) = sound.coherent n q cached in (a, rw same.0 found, price);
}
