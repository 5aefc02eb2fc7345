-- ===== src/Limiter/Times.antt =====
-- Lists of times: those before a bound, and those of a window of a window.
use multi_trade_platform.Base.{
  ℕ, ◌≤◌, ◌<◌, ◌≡◌, refl, arith, Bool, true, false, List, [], ◌∷◌, ltb, length, select, Bool-cases,
  inl, inr,
}
use multi_trade_platform.Limiter.{Bucket, live, contains}

-- Every time of the list lies before the bound.
abbrev pub AllBefore : ℕ → List ℕ → Type 0
AllBefore n [] = Unit {0}
AllBefore n (t ∷ ts) = (t < n) × AllBefore n ts

pub AllBefore-le : (m n : ℕ) (ts : List ℕ) → m ≤ n → AllBefore m ts → AllBefore n ts
AllBefore-le m n [] le all = tt
AllBefore-le m n (t ∷ ts) le all = (omega (arith, all.0), AllBefore-le m n ts le all.1)

pub AllBefore-select :
    (p : ℕ → Bool) (n : ℕ) (ts : List ℕ) → AllBefore n ts → AllBefore n (select p ts)
AllBefore-select p n [] all = tt
AllBefore-select p n (t ∷ ts) all = elim (Bool-cases (p t)) [
  | inl y ↦ rw y (all.0, AllBefore-select p n ts all.1)
  | inr n_ ↦ rw n_ (AllBefore-select p n ts all.1)
]

pub contains-AllBefore : (n t : ℕ) (ts : List ℕ) → n ≤ t → AllBefore n ts → contains t ts ≡ false
contains-AllBefore n t [] lt all = refl
contains-AllBefore n t (s ∷ ss) lt all =
    let rest = contains-AllBefore n t ss lt all.1 in let le = all.0 in ground arith

pub live-AllBefore : (t n : ℕ) (b : Bucket) → AllBefore n b.times → AllBefore n (live t b)
live-AllBefore t n b all = elim (Bool-cases (ltb b.expires_at t)) [
  | inl gone ↦ rw gone tt
  | inr there ↦ rw there all
]

-- Picking twice, the second time more strictly.
pub select-select :
    (p q : ℕ → Bool) (ts : List ℕ)
    → ((t : ℕ) → q t ≡ true → p t ≡ true)
    → select q (select p ts) ≡ select q ts
select-select p q [] stricter = refl
select-select p q (t ∷ ts) stricter =
    let rest = select-select p q ts stricter in let s = stricter t in ground arith

pub length-select_le :
    (p q : ℕ → Bool) (ts : List ℕ)
    → ((t : ℕ) → q t ≡ true → p t ≡ true)
    → length (select q ts) ≤ length (select p ts)
length-select_le p q [] stricter = omega arith
length-select_le p q (t ∷ ts) stricter =
    let rest = length-select_le p q ts stricter in let s = stricter t in ground arith
