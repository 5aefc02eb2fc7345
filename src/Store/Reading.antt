-- ===== src/Store/Reading.antt =====
-- Calls that only read, and what they keep atomic.
use multi_trade_platform.Base.{
  ◌≡◌, ◌≢◌, refl, ◌∙◌, arith, List, [], ◌∷◌, Bool, true, false, Option, none, some, Result, ok, err,
  inl, inr,
}
use multi_trade_platform.Store.Session.{
  World, Error, M, ◌>>=◌, ◌>>◌, statement, or_fail, fail_if, attempt, from_result,
}
use multi_trade_platform.Store.Laws.{IsAtomic, Result-cases}

-- A call that leaves the tables as they were, however it ends.
abbrev pub IsReading : {A : Type 0} → M A → Type 0
IsReading m = (w : World) → (m w).1.db ≡ w.db

module _ {A : Type 0} where
  pub or_fail-IsReading : (o : Option A) (e : Error) → IsReading (or_fail o e)
  or_fail-IsReading none e w = refl
  or_fail-IsReading (some a) e w = refl

  pub from_result-IsReading : (r : Result Error A) → IsReading (from_result r)
  from_result-IsReading (ok a) w = refl
  from_result-IsReading (err e) w = refl

  pub attempt-IsReading : (m : M A) → IsReading m → IsReading (attempt m)
  attempt-IsReading m reads w = reads w

  statement_reads :
      (m : M A)
      → IsReading m
      → (w : World) (fs : List Bool) → w.faults ≡ fs
      → (statement m w).1.db ≡ w.db
  unfolding statement
  statement_reads m reads w [] h = let same = reads w in ground arith
  statement_reads m reads w (true ∷ fs) h = ground arith
  statement_reads m reads w (false ∷ fs) h =
      let same = reads (record w { faults = fs }) in ground arith

  pub statement-IsReading : (m : M A) → IsReading m → IsReading (statement m)
  statement-IsReading m reads w = statement_reads m reads w w.faults refl

pub fail_if-IsReading : (b : Bool) (e : Error) → IsReading (fail_if b e)
fail_if-IsReading true e w = refl
fail_if-IsReading false e w = refl

module _ {A B : Type 0} (m : M A) where
  pub >>=-IsReading :
      (f : A → M B) → IsReading m → ((a : A) → IsReading (f a)) → IsReading (m >>= f)
  unfolding ◌>>=◌
  >>=-IsReading f reads rest w = elim (Result-cases (m w).0) [
    | inl (a, h) ↦ let same = rest a (m w).1 ∙ reads w in ground arith
    | inr (e, h) ↦ let same = reads w in ground arith
  ]

  pub >>-IsReading : (k : M B) → IsReading m → IsReading k → IsReading (m >> k)
  unfolding ◌>>◌
  >>-IsReading k reads rest = >>=-IsReading (λ _. k) reads (λ _. rest)

  -- What reads first stays atomic.
  pub >>=-IsAtomic : (f : A → M B) → IsReading m → ((a : A) → IsAtomic (f a)) → IsAtomic (m >>= f)
  unfolding ◌>>=◌
  >>=-IsAtomic f reads rest w e h = elim (Result-cases (m w).0) [
    | inl (a, k) ↦ let same = rest a (m w).1 e (ground arith) ∙ reads w in ground arith
    | inr (x, k) ↦ let same = reads w in ground arith
  ]

  pub >>-IsAtomic : (k : M B) → IsReading m → IsAtomic k → IsAtomic (m >> k)
  unfolding ◌>>◌
  >>-IsAtomic k reads rest = >>=-IsAtomic (λ _. k) reads (λ _. rest)

  -- Where only an error of an atomic call is looked at, and then only read.
  pub attempt-IsAtomic :
      (f : Result Error A → M B)
      → IsAtomic m
      → ((a : A) (w : World) (e : Error) → (f (ok a) w).0 ≢ err e)
      → ((e : Error) → IsReading (f (err e)))
      → IsAtomic (attempt m >>= f)
  unfolding ◌>>=◌
  attempt-IsAtomic f atomic done reads w e h = elim (Result-cases (m w).0) [
    | inl (a, k) ↦ absurd (done a (m w).1 e (ground arith))
    | inr (x, k) ↦ let same = reads x (m w).1 ∙ atomic w x k in ground arith
  ]

  -- What cannot fail behind it keeps a call atomic.
  pub >>=-IsAtomic_last :
      (f : A → M B)
      → IsAtomic m
      → ((a : A) (w : World) (e : Error) → (f a w).0 ≢ err e)
      → IsAtomic (m >>= f)
  unfolding ◌>>=◌
  >>=-IsAtomic_last f atomic done w e h = elim (Result-cases (m w).0) [
    | inl (a, k) ↦ absurd (done a (m w).1 e (ground arith))
    | inr (x, k) ↦ let same = atomic w x k in ground arith
  ]
