-- ===== src/Store/Laws.antt =====
-- Rules for sessions: what a call that succeeds has done, step by step, and that a transaction that
-- fails has done nothing.
use multi_trade_platform.Base.{
  ◌≡◌, refl, ap, sym, ◌⊎◌, inl, inr, arith, true, false, List, [], ◌∷◌, Option, none, some, Result,
  ok, err, Bool, ◌∙◌,
}
use multi_trade_platform.Store.Session.{
  World, Error, M, ◌>>=◌, ◌>>◌, statement, run_tx, or_fail, fail_if,
}

-- A call that ends in an error has left the tables as they were.
abbrev pub IsAtomic : {A : Type 0} → M A → Type 0
IsAtomic m = (w : World) (e : Error) → (m w).0 ≡ err e → (m w).1.db ≡ w.db

pub IsAtomic-error :
    {A : Type 0} (m : M A) (w : World) (e : Error) (w' : World)
    → IsAtomic m
    → m w ≡ (err e, w')
    → w'.db ≡ w.db
IsAtomic-error m w e w' atomic h = sym (ap (λ r. r.1.db) h) ∙ atomic w e (ap (λ r. r.0) h)

abbrev pub rest : List Bool → List Bool
rest [] = []
rest (f ∷ fs) = fs

-- The world in which the next statement is executed.
abbrev pub served : World → World
served w = record w { faults = rest w.faults }

pub Result-cases :
    {A : Type 0} (r : Result Error A) → ((a : A) × (r ≡ ok a)) ⊎ ((e : Error) × (r ≡ err e))
Result-cases (ok a) = inl (a, refl)
Result-cases (err e) = inr (e, refl)

module _ {A : Type 0} where
  statement_go :
      (m : M A) (w : World) (fs : List Bool) (a : A) (w' : World)
      → w.faults ≡ fs
      → statement m w ≡ (ok a, w')
      → m (record w { faults = rest fs }) ≡ (ok a, w')
  unfolding statement
  statement_go m w [] a w' h e = ground arith
  statement_go m w (true ∷ fs) a w' h e = ground arith
  statement_go m w (false ∷ fs) a w' h e = ground arith

  pub statement-ok :
      (m : M A) (w : World) (a : A) (w' : World)
      → statement m w ≡ (ok a, w')
      → m (served w) ≡ (ok a, w')
  statement-ok m w a w' e = statement_go m w w.faults a w' refl e

  statement_cases_go :
      (m : M A) (w : World) (fs : List Bool)
      → w.faults ≡ fs
      → (statement m w ≡ (err Error.db_failed, served w)) ⊎ (statement m w ≡ m (served w))
  unfolding statement
  statement_cases_go m w [] h = inr (ground arith)
  statement_cases_go m w (true ∷ fs) h = inl (ground arith)
  statement_cases_go m w (false ∷ fs) h = inr (ground arith)

  -- The database fails to execute a statement, or it is executed.
  pub statement-cases :
      (m : M A) (w : World)
      → (statement m w ≡ (err Error.db_failed, served w)) ⊎ (statement m w ≡ m (served w))
  statement-cases m w = statement_cases_go m w w.faults refl

  run_tx_go :
      (m : M A) (w : World) (fs : List Bool) (a : A) (w' : World)
      → w.faults ≡ fs
      → run_tx m w ≡ (ok a, w')
      → let w₁ = record w { faults = rest fs } in (m w₁ ≡ (ok a, (m w₁).1)) × (w'.db ≡ (m w₁).1.db)
  unfolding run_tx
  run_tx_go m w [] a w' h e = ground arith
  run_tx_go m w (true ∷ fs) a w' h e = ground arith
  run_tx_go m w (false ∷ fs) a w' h e = ground arith

  -- A transaction that succeeds has left what its body left.
  pub run_tx-ok :
      (m : M A) (w : World) (a : A) (w' : World)
      → run_tx m w ≡ (ok a, w')
      → (w₁ : World) × (m (served w) ≡ (ok a, w₁)) × (w'.db ≡ w₁.db)
  run_tx-ok m w a w' e = let (x, y) = run_tx_go m w w.faults a w' refl e in ((m (served w)).1, x, y)

  -- Whatever the body does, an error leaves the tables as they were.
  pub run_tx-IsAtomic : (m : M A) → IsAtomic (run_tx m)
  unfolding run_tx
  run_tx-IsAtomic m w e h = ground arith

-- To use that a sequence of calls has succeeded, step by step.
module _ {ℓ} {P : Type ℓ} {B : Type 0} {w w' : World} {b : B} where
  pub >>=-step :
      {A : Type 0} (m : M A) (f : A → M B)
      → (m >>= f) w ≡ (ok b, w')
      → ((a : A) (w₁ : World) → m w ≡ (ok a, w₁) → f a w₁ ≡ (ok b, w') → P)
      → P
  unfolding ◌>>=◌
  >>=-step m f e k = elim (Result-cases (m w).0) [
    | inl (a, h) ↦ k a (m w).1 (ground arith) (ground arith)
    | inr (x, h) ↦ absurd (ground arith)
  ]

  pub >>-step :
      {A : Type 0} (m : M A) (f : M B)
      → (m >> f) w ≡ (ok b, w')
      → ((a : A) (w₁ : World) → m w ≡ (ok a, w₁) → f w₁ ≡ (ok b, w') → P)
      → P
  unfolding ◌>>◌
  >>-step m f e k = >>=-step m (λ _. f) e k

pub or_fail-ok :
    {A : Type 0} (o : Option A) (x : Error) (w : World) (a : A) (w' : World)
    → or_fail o x w ≡ (ok a, w')
    → (o ≡ some a) × (w' ≡ w)
or_fail-ok none x w a w' e = absurd (ground arith)
or_fail-ok (some b) x w a w' e = (ground arith, ground arith)

pub fail_if-ok :
    (t : Bool) (x : Error) (w : World) (a : Unit {0}) (w' : World)
    → fail_if t x w ≡ (ok a, w')
    → (t ≡ false) × (w' ≡ w)
fail_if-ok true x w a w' e = absurd (ground arith)
fail_if-ok false x w a w' e = (refl, ground arith)

-- A check of the input in front of a transaction.
pub checked_tx-IsAtomic :
    {A B : Type 0} (o : Option A) (x : Error) (body : A → M B)
    → IsAtomic (or_fail o x >>= λ a. run_tx (body a))
unfolding ◌>>=◌
checked_tx-IsAtomic none x body w e h = refl
checked_tx-IsAtomic (some a) x body w e h = run_tx-IsAtomic (body a) w e h
