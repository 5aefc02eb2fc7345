-- ===== src/Base/Tables.antt =====
-- A table as the list of its rows, with the statements that the repositories send.
use mathlib.Core.Path.{◌≡◌, refl, sym, ap, ◌∙◌}
use mathlib.Core.Bool.{Bool, true, false}
use mathlib.Core.List.{List, [], ◌∷◌, ◌++◌}
use mathlib.Core.Option.{Option, none, some}
use native.Mathlib.Omega.{arith}
use mathlib.Core.Logic.{inl, inr}
use multi_trade_platform.Base.Tests.{if◌then◌else◌, Bool-cases, Option-cases}

module _ {A : Type 0} where
  -- SELECT … WHERE p, of which the caller scans the first row.
  abbrev pub find_row : (A → Bool) → List A → Option A
  find_row p [] = none
  find_row p (x ∷ xs) = if p x then some x else find_row p xs

  -- UPDATE … SET f WHERE p.
  abbrev pub update_rows : (A → Bool) → (A → A) → List A → List A
  update_rows p f [] = []
  update_rows p f (x ∷ xs) = (if p x then f x else x) ∷ update_rows p f xs

  pub find_row-holds : (p : A → Bool) (xs : List A) (a : A) → find_row p xs ≡ some a → p a ≡ true
  find_row-holds p [] a e = cc
  find_row-holds p (x ∷ xs) a e = ground (arith, find_row-holds p xs a)

-- An update of other rows does not change the row that is found.
pub find_row-update_rows :
    {A : Type 0} (p q : A → Bool) (f : A → A) (xs : List A) (y : A)
    → ((x : A) → p (f x) ≡ p x)
    → q y ≡ false
    → find_row p xs ≡ some y
    → find_row p (update_rows q f xs) ≡ some y
find_row-update_rows p q f [] y keeps other found = found
find_row-update_rows p q f (x ∷ xs) y keeps other found =
    let rest = find_row-update_rows p q f xs y keeps other in
    let same = keeps x in
    elim (Bool-cases (q x)) [
      | inl h ↦ elim (Bool-cases (p x)) [
        | inl k ↦
            let row : x ≡ y = ground arith in
            let clash : true ≡ false = sym h ∙ (ap q row ∙ other) in cc
        | inr k ↦ let tail = rest (ground arith) in ground arith
      ]
      | inr h ↦ elim (Bool-cases (p x)) [
        | inl k ↦ ground arith
        | inr k ↦ let tail = rest (ground arith) in ground arith
      ]
    ]

pub find_row-append :
    {A : Type 0} (p : A → Bool) (xs ys : List A) (y : A)
    → find_row p xs ≡ some y
    → find_row p (xs ++ ys) ≡ some y
find_row-append p [] ys y found = absurd (ground arith)
find_row-append p (x ∷ xs) ys y found = elim (Bool-cases (p x)) [
  | inl k ↦ ground arith
  | inr k ↦ let tail = find_row-append p xs ys y (ground arith) in ground arith
]

pub find_row-update_rows_hit :
    {A : Type 0} (p q : A → Bool) (f : A → A) (xs : List A) (y : A)
    → ((x : A) → p (f x) ≡ p x)
    → q y ≡ true
    → find_row p xs ≡ some y
    → find_row p (update_rows q f xs) ≡ some (f y)
find_row-update_rows_hit p q f [] y keeps hit found = absurd (ground arith)
find_row-update_rows_hit p q f (x ∷ xs) y keeps hit found =
    let rest = find_row-update_rows_hit p q f xs y keeps hit in
    let same = keeps x in
    elim (Bool-cases (p x)) [
      | inl h ↦
          let row : x ≡ y = ground arith in let there : q x ≡ true = ap q row ∙ hit in ground arith
      | inr h ↦ let tail = rest (ground arith) in ground arith
    ]

pub find_row-update_rows_absent :
    {A : Type 0} (p q : A → Bool) (f : A → A) (xs : List A)
    → ((x : A) → p (f x) ≡ p x)
    → find_row p xs ≡ none
    → find_row p (update_rows q f xs) ≡ none
find_row-update_rows_absent p q f [] keeps h = refl
find_row-update_rows_absent p q f (x ∷ xs) keeps h =
    let same = keeps x in
    let skipped : p x ≡ false = ground arith in
    let rest = find_row-update_rows_absent p q f xs keeps (ground arith) in ground arith

pub find_row-append_absent :
    {A : Type 0} (p : A → Bool) (xs ys : List A)
    → find_row p xs ≡ none
    → find_row p (xs ++ ys) ≡ find_row p ys
find_row-append_absent p [] ys h = refl
find_row-append_absent p (x ∷ xs) ys h = let rest = find_row-append_absent p xs ys in ground arith

pub find_row-append_other :
    {A : Type 0} (p : A → Bool) (xs : List A) (y : A)
    → p y ≡ false
    → find_row p (xs ++ y ∷ []) ≡ find_row p xs
find_row-append_other p [] y other = ground arith
find_row-append_other p (x ∷ xs) y other =
    let rest = find_row-append_other p xs y other in ground arith

-- An update does not change what is found at another key.
pub find_row-update_rows_other :
    {A : Type 0} (p q : A → Bool) (f : A → A) (xs : List A)
    → ((x : A) → p (f x) ≡ p x)
    → ((x : A) → p x ≡ true → q x ≡ false)
    → find_row p (update_rows q f xs) ≡ find_row p xs
find_row-update_rows_other p q f xs keeps other = elim (Option-cases (find_row p xs)) [
  | inl e ↦ find_row-update_rows_absent p q f xs keeps e ∙ sym e
  | inr (y, e) ↦ find_row-update_rows p q f xs y keeps (other y (find_row-holds p xs y e)) e ∙ sym e
]

pub find_row_narrower :
    {A : Type 0} (p q : A → Bool) (xs : List A) (y : A)
    → ((x : A) → q x ≡ true → p x ≡ true)
    → q y ≡ true
    → find_row p xs ≡ some y
    → find_row q xs ≡ some y
find_row_narrower p q [] y narrower hit found = absurd (ground arith)
find_row_narrower p q (x ∷ xs) y narrower hit found =
    let rest = find_row_narrower p q xs y narrower hit in
    let first = narrower x in
    elim (Bool-cases (p x)) [
      | inl h ↦
          let row : x ≡ y = ground arith in let there : q x ≡ true = ap q row ∙ hit in ground arith
      | inr h ↦ let tail = rest (ground arith) in ground arith
    ]
