-- ===== src/Base/Newest.antt =====
-- ORDER BY created_at DESC, on rows with a time. Among rows of one time the later row comes first.
use mathlib.Core.List.{Perm}
use mathlib.Core.List.Perm
use multi_trade_platform.Base.{
  ℕ, suc, ◌≤◌, ◌≡◌, refl, ap, ◌∙◌, arith, List, [], ◌∷◌, leb, length, Bool-cases, inl, inr,
  if◌then◌else◌,
}

module _ {A : Type 0} (time : A → ℕ) where
  abbrev pub insert_newest : A → List A → List A
  insert_newest x [] = x ∷ []
  insert_newest x (y ∷ ys) =
      let rest = insert_newest x ys in if leb (time x) (time y) then y ∷ rest else x ∷ y ∷ ys

  abbrev pub newest_first : List A → List A
  newest_first [] = []
  newest_first (x ∷ xs) = insert_newest x (newest_first xs)

  abbrev pub Precedes : A → List A → Type 0
  Precedes x [] = Unit {0}
  Precedes x (y ∷ ys) = time y ≤ time x

  -- No row has a time after that of the row before it.
  unfoldable pub IsNewestFirst : List A → Type 0
  IsNewestFirst [] = Unit {0}
  IsNewestFirst (x ∷ xs) = Precedes x xs × IsNewestFirst xs

  Precedes-insert_newest :
      (x y : A) (ys : List A) → time x ≤ time y → Precedes y ys → Precedes y (insert_newest x ys)
  Precedes-insert_newest x y [] first second = first
  Precedes-insert_newest x y (z ∷ zs) first second = elim (Bool-cases (leb (time x) (time z))) [
    | inl h ↦ rw h second
    | inr h ↦ rw h first
  ]

  insert_newest-IsNewestFirst :
      (x : A) (ys : List A) → IsNewestFirst ys → IsNewestFirst (insert_newest x ys)
  unfolding IsNewestFirst
  insert_newest-IsNewestFirst x [] sorted = (tt, tt)
  insert_newest-IsNewestFirst x (y ∷ ys) sorted = elim (Bool-cases (leb (time x) (time y))) [
    | inl h ↦
        let before : time x ≤ time y = ground arith in
        rw h
          (Precedes-insert_newest x y ys before sorted.0, insert_newest-IsNewestFirst x ys sorted.1)
    | inr h ↦ let after : time y ≤ time x = ground arith in rw h (after, sorted)
  ]

  pub newest_first-IsNewestFirst : (xs : List A) → IsNewestFirst (newest_first xs)
  unfolding IsNewestFirst
  newest_first-IsNewestFirst [] = tt
  newest_first-IsNewestFirst (x ∷ xs) =
      insert_newest-IsNewestFirst x (newest_first xs) (newest_first-IsNewestFirst xs)

  insert_newest-perm : (x : A) (ys : List A) → Perm (insert_newest x ys) (x ∷ ys)
  insert_newest-perm x [] = Perm.rfl
  insert_newest-perm x (y ∷ ys) = elim (Bool-cases (leb (time x) (time y))) [
    | inl h ↦ rw h (Perm.trans (Perm.cons y (insert_newest-perm x ys)) (Perm.swap x y ys))
    | inr h ↦ rw h Perm.rfl
  ]

  pub newest_first-perm : (xs : List A) → Perm (newest_first xs) xs
  newest_first-perm [] = Perm.rfl
  newest_first-perm (x ∷ xs) =
      Perm.trans (insert_newest-perm x (newest_first xs)) (Perm.cons x (newest_first-perm xs))

  length-insert_newest : (x : A) (ys : List A) → length (insert_newest x ys) ≡ suc (length ys)
  length-insert_newest x [] = refl
  length-insert_newest x (y ∷ ys) = elim (Bool-cases (leb (time x) (time y))) [
    | inl h ↦ rw h (ap suc (length-insert_newest x ys))
    | inr h ↦ rw h refl
  ]

  pub length-newest_first : (xs : List A) → length (newest_first xs) ≡ length xs
  length-newest_first [] = refl
  length-newest_first (x ∷ xs) =
      length-insert_newest x (newest_first xs) ∙ ap suc (length-newest_first xs)
