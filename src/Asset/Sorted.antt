-- ===== src/Asset/Sorted.antt =====
-- ListActive of the asset repository: ORDER BY symbol.
use Prim.Native.String.{String}
use mathlib.Core.List.{Perm}
use mathlib.Core.List.Perm
use multi_trade_platform.Base.{
  ◌≡◌, subst, arith, Bool, true, false, List, [], ◌∷◌, ok, Bool-cases, inl, inr, select,
}
use multi_trade_platform.Store.{World, Asset, ◌>>=◌}
use multi_trade_platform.Store.Laws.{statement-ok}
use multi_trade_platform.Order.Service.{is_active}
use multi_trade_platform.Asset.Service.{insert_by_symbol, sort_by_symbol, active_assets}

module _ (collates : String → String → Bool) where
  -- The first of the list has a symbol that may come after that of the asset.
  abbrev pub Precedes : Asset → List Asset → Type 0
  Precedes a [] = Unit {0}
  Precedes a (b ∷ bs) = collates a.symbol b.symbol ≡ true

  -- The symbols are in the order of the collation.
  unfoldable IsInOrder : List Asset → Type 0
  IsInOrder [] = Unit {0}
  IsInOrder (a ∷ as_) = Precedes a as_ × IsInOrder as_

  module _ (total : (s t : String) → collates s t ≡ false → collates t s ≡ true) where
    Precedes-insert_by_symbol :
        (a b : Asset) (bs : List Asset)
        → collates b.symbol a.symbol ≡ true
        → Precedes b bs
        → Precedes b (insert_by_symbol collates a bs)
    unfolding insert_by_symbol
    Precedes-insert_by_symbol a b [] first second = first
    Precedes-insert_by_symbol a b (c ∷ cs) first second =
        elim (Bool-cases (collates a.symbol c.symbol)) [ inl h ↦ rw h first | inr h ↦ rw h second ]

    insert_by_symbol-IsInOrder :
        (a : Asset) (bs : List Asset) → IsInOrder bs → IsInOrder (insert_by_symbol collates a bs)
    unfolding IsInOrder insert_by_symbol
    insert_by_symbol-IsInOrder a [] ordered = (tt, tt)
    insert_by_symbol-IsInOrder a (b ∷ bs) ordered = elim (Bool-cases (collates a.symbol b.symbol)) [
      | inl h ↦ rw h (h, ordered)
      | inr h ↦ rw h (
        Precedes-insert_by_symbol a b bs (total a.symbol b.symbol h) ordered.0,
        insert_by_symbol-IsInOrder a bs ordered.1,
      )
    ]

    sort_by_symbol-IsInOrder : (as_ : List Asset) → IsInOrder (sort_by_symbol collates as_)
    unfolding IsInOrder sort_by_symbol
    sort_by_symbol-IsInOrder [] = tt
    sort_by_symbol-IsInOrder (a ∷ as_) =
        insert_by_symbol-IsInOrder a (sort_by_symbol collates as_) (sort_by_symbol-IsInOrder as_)

  insert_by_symbol-perm :
      (a : Asset) (bs : List Asset) → Perm (insert_by_symbol collates a bs) (a ∷ bs)
  unfolding insert_by_symbol
  insert_by_symbol-perm a [] = Perm.rfl
  insert_by_symbol-perm a (b ∷ bs) = elim (Bool-cases (collates a.symbol b.symbol)) [
    | inl h ↦ rw h Perm.rfl
    | inr h ↦ rw h (Perm.trans (Perm.cons b (insert_by_symbol-perm a bs)) (Perm.swap a b bs))
  ]

  sort_by_symbol-perm : (as_ : List Asset) → Perm (sort_by_symbol collates as_) as_
  unfolding sort_by_symbol
  sort_by_symbol-perm [] = Perm.rfl
  sort_by_symbol-perm (a ∷ as_) =
      Perm.trans (insert_by_symbol-perm a (sort_by_symbol collates as_))
        (Perm.cons a (sort_by_symbol-perm as_))

  -- The rows that ListActive returns are the active ones of the table, each as often as it is there, in
  -- the order of their symbols, for a collation in which of two symbols one comes before the other.
  active_assets_lem :
      (w : World) (as_ : List Asset) (w' : World)
      → ((s t : String) → collates s t ≡ false → collates t s ≡ true)
      → active_assets collates w ≡ (ok as_, w')
      → Perm as_ (select (λ a. is_active a.status) w.db.assets) × IsInOrder as_ × (w'.db ≡ w.db)
  unfolding active_assets ◌>>=◌
  active_assets_lem w as_ w' total e =
      let done = statement-ok _ w as_ w' e in
      let rows : sort_by_symbol collates (select (λ a. is_active a.status) w.db.assets) ≡ as_ =
        ground arith in
      (
        subst (λ x. Perm x (select (λ a. is_active a.status) w.db.assets)) rows
            (sort_by_symbol-perm _),
        subst IsInOrder rows (sort_by_symbol-IsInOrder total _),
        ground arith,
      )
