-- ===== src/Asset/Ends.antt =====
-- How the calls on assets end: what holds after a success, and that an error changes nothing.
use multi_trade_platform.Base.{
  ℕ, suc, ◌≡◌, refl, ap, sym, arith, Bool, true, false, not, [], ◌∷◌, ◌++◌, Option, none, some,
  Result, ok, err, inl, inr, find_row, update_rows,
}
use multi_trade_platform.Decimal.BigFloat.{NumText}
use multi_trade_platform.Store.{
  World, Db, M, read_db, pure, attempt, Error, Asset, AssetStatus, statement, fail_if, or_fail,
  ◌>>=◌, ◌>>◌,
}
use multi_trade_platform.Store.Laws.{statement-cases, served}
use multi_trade_platform.Order.Service.{has_asset_id, get_asset}
use multi_trade_platform.Asset.{
  NewAsset, AssetUpdate, create_asset, insert_asset, update_asset, store_asset, disable_asset,
  disabled, is_asset_of, updated_asset,
}
use multi_trade_platform.Asset.Service.{
  checked_text, create_row, update_row, from_create, CreateAssetInput, UpdateAssetInput,
}

-- Only the schedule of failures has moved on.
abbrev pub Untouched : World → World → Type 0
Untouched w w' = (w'.db ≡ w.db) × (w'.serial ≡ w.serial)

unfoldable pub Ends : {A : Type 0} → (A → World → Type 0) → World → Result Error A × World → Type 0
Ends Q w r = elim r.0 as (λ _. Type 0) [ ok a ↦ Q a r.1 | err e ↦ Untouched w r.1 ]

module _ {A : Type 0} where
  pub statement-Ends :
      (Q : A → World → Type 0) (m : M A) (w w₁ : World)
      → Untouched w w₁
      → ((w₂ : World) → Untouched w w₂ → Ends Q w (m w₂))
      → Ends Q w (statement m w₁)
  unfolding Ends
  statement-Ends Q m w w₁ same done = elim (statement-cases m w₁) [
    | inl lost ↦ rw lost same
    | inr ran ↦ rw ran (done (served w₁) same)
  ]

module _ {A B : Type 0} (P : A → World → Type 0) (Q : B → World → Type 0) (m : M A)
    (w c : World) where
  after_result :
      (f : A → M B) (r : Result Error A) (w₁ : World)
      → Ends P w (r, w₁)
      → ((a : A) (w₂ : World) → P a w₂ → Ends Q w (f a w₂))
      → Ends Q w (elim r [ ok a ↦ f a w₁ | err e ↦ (err e, w₁) ])
  unfolding Ends
  after_result f (ok a) w₁ first next = next a w₁ first
  after_result f (err e) w₁ first next = first

  pub >>=-Ends :
      (f : A → M B)
      → Ends P w (m c)
      → ((a : A) (w₁ : World) → P a w₁ → Ends Q w (f a w₁))
      → Ends Q w ((m >>= f) c)
  unfolding ◌>>=◌
  >>=-Ends f first next = after_result f (m c).0 (m c).1 first next

  pub >>-Ends :
      (k : M B)
      → Ends P w (m c)
      → ((a : A) (w₁ : World) → P a w₁ → Ends Q w (k w₁))
      → Ends Q w ((m >> k) c)
  unfolding ◌>>◌ ◌>>=◌
  >>-Ends k first next = after_result (λ _. k) (m c).0 (m c).1 first next

pub or_fail-Ends :
    {A : Type 0} (o : Option A) (x : Error) (w w₁ : World)
    → Untouched w w₁
    → Ends (λ a w₂. (o ≡ some a) × Untouched w w₂) w (or_fail o x w₁)
unfolding Ends
or_fail-Ends none x w w₁ same = same
or_fail-Ends (some a) x w w₁ same = (refl, same)

pub fail_if-Ends :
    (b : Bool) (x : Error) (w w₁ : World)
    → Untouched w w₁
    → Ends (λ u w₂. (b ≡ false) × Untouched w w₂) w (fail_if b x w₁)
unfolding Ends
fail_if-Ends true x w w₁ same = same
fail_if-Ends false x w w₁ same = (refl, same)

pub read_db-Ends :
    (w w₁ : World) → Untouched w w₁ → Ends (λ d w₂. (d ≡ w.db) × Untouched w w₂) w (read_db w₁)
unfolding Ends
read_db-Ends w w₁ same = (same.0, same)

pub get_asset-Ends :
    (id : ℕ) (w w₁ : World)
    → Untouched w w₁
    → Ends
        (λ a w₂. (find_row (has_asset_id id) w.db.assets ≡ some a) × Untouched w w₂)
        w
        (get_asset id w₁)
unfolding get_asset
get_asset-Ends id w w₁ same = statement-Ends _ _ w w₁ same λ w₂ same₂.
    >>=-Ends _ _ _ w w₂ _ (read_db-Ends w w₂ same₂) λ d w₃ h₃.
      let e : find_row (has_asset_id id) d.assets ≡ find_row (has_asset_id id) w.db.assets =
        ap (λ (e : Db). find_row (has_asset_id id) e.assets) h₃.0 in
      rw e (or_fail-Ends (find_row (has_asset_id id) w.db.assets) Error.asset_not_found w w₃ h₃.1)

-- The update that is stored: a row that was there, with its new columns.
abbrev pub Updates : ℕ → ℕ → World → Asset → World → Type 0
Updates id broker_id w a w₁ =
    (before : Asset) × (price : ℕ) × (quantity : ℕ) × (status : AssetStatus) × (find_row
        (is_asset_of id broker_id) w.db.assets
      ≡ some before)
    × (a ≡ updated_asset price quantity status before)
    × (w₁.db.assets
        ≡ update_rows (is_asset_of id broker_id) (updated_asset price quantity status) w.db.assets)
    × (w₁.serial ≡ w.serial)

store_asset-Ends :
    (u : AssetUpdate) (price quantity : ℕ) (o : Option Asset) (w w₁ : World)
    → Untouched w w₁
    → find_row (is_asset_of u.id u.broker_id) w.db.assets ≡ o
    → Ends (Updates u.id u.broker_id w) w (store_asset u price quantity o w₁)
unfolding Ends store_asset ◌>>◌ ◌>>=◌
store_asset-Ends u price quantity none w w₁ same e = same
store_asset-Ends u price quantity (some before) w w₁ same e = (
  before,
  price,
  quantity,
  u.status,
  e,
  refl,
  ap
      (λ d.
        update_rows (is_asset_of u.id u.broker_id) (updated_asset price quantity u.status) d.assets)
      same.0,
  same.1,
)

pub update_asset-Ends :
    (u : AssetUpdate) (w w₁ : World)
    → Untouched w w₁
    → Ends (Updates u.id u.broker_id w) w (update_asset u w₁)
unfolding update_asset
update_asset-Ends u w w₁ same = statement-Ends _ _ w w₁ same λ w₂ same₂.
    >>=-Ends _ _ _ w w₂ _ (or_fail-Ends _ _ w w₂ same₂) λ price w₃ h₃.
      >>=-Ends _ _ _ w w₃ _ (or_fail-Ends _ _ w w₃ h₃.1) λ quantity w₄ h₄.
        >>=-Ends _ _ _ w w₄ _ (read_db-Ends w w₄ h₄.1) λ d w₅ h₅.
          store_asset-Ends u price quantity _ w w₅ h₅.1
            (ap (λ (e : Db). find_row (is_asset_of u.id u.broker_id) e.assets) (sym h₅.0))

-- DisableAsset and UpdateAsset write the row that they have read.
abbrev pub Rewrites : ℕ → World → Asset → World → Type 0
Rewrites id w a w₁ =
    (read : Asset) × (find_row (has_asset_id id) w.db.assets ≡ some read)
    × Updates read.id read.broker_id w a w₁

Updates-Rewrites :
    (id : ℕ) (read : Asset) (w : World) (r : Result Error Asset × World)
    → find_row (has_asset_id id) w.db.assets ≡ some read
    → Ends (Updates read.id read.broker_id w) w r
    → Ends (Rewrites id w) w r
unfolding Ends
Updates-Rewrites id read w (ok a, w₁) found done = (read, found, done)
Updates-Rewrites id read w (err e, w₁) found done = done

pub disable_asset-Ends :
    (broker_id id : ℕ) (w : World) → Ends (Rewrites id w) w (disable_asset broker_id id w)
unfolding disable_asset
disable_asset-Ends broker_id id w =
    >>=-Ends _ _ _ w w _ (get_asset-Ends id w w (refl, refl)) λ a w₁ h₁.
      >>-Ends _ _ _ w w₁ _ (fail_if-Ends _ _ w w₁ h₁.1)
        λ u w₂ h₂. Updates-Rewrites id a w _ h₁.0 (update_asset-Ends (disabled a) w w₂ h₂.1)

pure-Ends :
    {A : Type 0} (a : A) (w w₁ : World)
    → Untouched w w₁
    → Ends (λ b w₂. Untouched w w₂) w (pure a w₁)
unfolding Ends
pure-Ends a w w₁ same = same

checked_text-Ends :
    (valid : NumText → Bool) (t : Option NumText) (old : ℕ) (w w₁ : World)
    → Untouched w w₁
    → Ends (λ u w₂. Untouched w w₂) w (checked_text valid t old w₁)
checked_text-Ends valid none old w w₁ same = unfold Ends in same
checked_text-Ends valid (some t) old w w₁ same =
    >>-Ends _ _ _ w w₁ _ (fail_if-Ends (not (valid t)) Error.invalid_asset_data w w₁ same)
      λ u w₂ h₂. pure-Ends t w w₂ h₂.1

pub update_row-Ends :
    (front_positive : Bool) (broker_id id : ℕ) (input : UpdateAssetInput) (w : World)
    → Ends (Rewrites id w) w (update_row front_positive broker_id id input w)
update_row-Ends front_positive broker_id id input w =
    >>=-Ends _ _ _ w w _ (get_asset-Ends id w w (refl, refl)) λ a w₁ h₁.
      >>-Ends _ _ _ w w₁ _ (fail_if-Ends _ _ w w₁ h₁.1) λ u w₂ h₂.
        >>=-Ends _ _ _ w w₂ _ (checked_text-Ends _ input.price a.price w w₂ h₂.1) λ p w₃ h₃.
          >>=-Ends _ _ _ w w₃ _ (checked_text-Ends _ input.quantity a.quantity w w₃ h₃)
            λ q w₄ h₄. Updates-Rewrites id a w _ h₁.0 (update_asset-Ends _ w w₄ h₄)

-- A new asset stands behind the others, under the next number of the sequence.
abbrev pub Adds : World → Asset → World → Type 0
Adds w a w₁ =
    (a.id ≡ w.serial) × (w₁.serial ≡ suc w.serial) × (w₁.db.assets ≡ w.db.assets ++ a ∷ [])

insert_asset-Ends :
    (n : NewAsset) (price quantity : ℕ) (o : Option Asset) (w w₁ : World)
    → Untouched w w₁
    → Ends (Adds w) w (insert_asset n price quantity o w₁)
unfolding Ends insert_asset ◌>>=◌ ◌>>◌
insert_asset-Ends n price quantity (some a) w w₁ same = same
insert_asset-Ends n price quantity none w w₁ same =
    (same.1, ap suc same.1, let tables = same.0 in ground arith)

create_asset-Ends :
    (n : NewAsset) (w w₁ : World) → Untouched w w₁ → Ends (Adds w) w (create_asset n w₁)
unfolding create_asset
create_asset-Ends n w w₁ same = statement-Ends _ _ w w₁ same λ w₂ same₂.
    >>=-Ends _ _ _ w w₂ _ (or_fail-Ends _ _ w w₂ same₂) λ price w₃ h₃.
      >>=-Ends _ _ _ w w₃ _ (or_fail-Ends _ _ w w₃ h₃.1) λ quantity w₄ h₄.
        >>=-Ends _ _ _ w w₄ _ (read_db-Ends w w₄ h₄.1)
          λ d w₅ h₅. insert_asset-Ends n price quantity _ w w₅ h₅.1

created-Ends :
    (w : World) (r : Result Error Asset × World)
    → Ends (Adds w) w r
    → Ends (Adds w) w (from_create r.0 r.1)
unfolding Ends
created-Ends w (ok a, w₁) done = done
created-Ends w (err e, w₁) done = done

from_create-Ends :
    (m : M Asset) (w c : World)
    → Ends (Adds w) w (m c)
    → Ends (Adds w) w ((attempt m >>= from_create) c)
unfolding ◌>>=◌
from_create-Ends m w c done = created-Ends w (m c) done

pub create_row-Ends :
    (front_positive : Bool) (broker_id : ℕ) (input : CreateAssetInput) (w : World)
    → Ends (Adds w) w (create_row front_positive broker_id input w)
create_row-Ends front_positive broker_id input w =
    >>-Ends _ _ _ w w _ (fail_if-Ends _ _ w w (refl, refl)) λ u w₁ h₁.
      >>-Ends _ _ _ w w₁ _ (fail_if-Ends _ _ w w₁ h₁.1)
        λ v w₂ h₂. from_create-Ends _ w w₂ (create_asset-Ends _ w w₂ h₂.1)
