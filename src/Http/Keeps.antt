-- ===== src/Http/Keeps.antt =====
-- How the parts of a handler carry over that a refusal has changed no table.
use multi_trade_platform.Base.{
  ℕ, zero, suc, ◌≤◌, ◌≡◌, refl, ◌∙◌, arith, List, [], ◌∷◌, Option, none, some, Result, ok, err, inl,
  inr,
}
use multi_trade_platform.Base.Int.{ℤ, pos, negsuc}
use multi_trade_platform.Store.{Db, Error}
use multi_trade_platform.Store.Laws.{Result-cases}
use multi_trade_platform.Http.{
  Reply, Handler, Call, bound, with_path_id, parse_id_param, respond_with, answer,
}

-- The status that the client sees: that of the first body, and gin's 200 where there is none.
abbrev pub status_of : List Reply → ℕ
status_of [] = 200
status_of (r ∷ rs) = r.status

module _ {S : Type 0} (db_of : S → Db) where
  -- A refusal of h, run in s, changes no table.
  unfoldable pub Keeps : Handler S → S → Type 0
  Keeps h s = 400 ≤ status_of (h s).0 → db_of (h s).1 ≡ db_of s

  pub bound-Keeps :
      {A : Type 0} (body : Option A) (h : A → Handler S) (s : S)
      → ((input : A) → Keeps (h input) s)
      → Keeps (bound body h) s
  unfolding Keeps
  bound-Keeps none h s keeps = λ refused. refl
  bound-Keeps (some input) h s keeps = keeps input

  -- A number below 1 is refused, and then the handler goes on with 0.
  pub with_path_id-Keeps :
      (param : Option ℤ) (h : ℕ → Handler S) (s : S)
      → db_of (h 0 s).1 ≡ db_of s
      → ((n : ℕ) → Keeps (h n) s)
      → Keeps (with_path_id param h) s
  unfolding Keeps parse_id_param
  with_path_id-Keeps none h s at_zero keeps = λ refused. refl
  with_path_id-Keeps (some (negsuc n)) h s at_zero keeps = λ refused. at_zero
  with_path_id-Keeps (some (pos zero)) h s at_zero keeps = λ refused. at_zero
  with_path_id-Keeps (some (pos (suc n))) h s at_zero keeps = keeps (suc n)

  module _ {A : Type 0} (done : A → Reply) (failed : Error → Reply) where
    answer_cases :
        (r : Result Error A) (s s' : S)
        → ((a : A) → (done a).status ≤ 399)
        → ((e : Error) → r ≡ err e → db_of s' ≡ db_of s)
        → 400 ≤ status_of (answer done failed (r, s')).0
        → db_of (answer done failed (r, s')).1 ≡ db_of s
    answer_cases (ok a) s s' small atomic refused = let le = small a in absurd (omega arith)
    answer_cases (err e) s s' small atomic refused = atomic e refl

    answer_leaves : (r : Result Error A) (s' : S) → db_of (answer done failed (r, s')).1 ≡ db_of s'
    answer_leaves (ok a) s' = refl
    answer_leaves (err e) s' = refl

    pub respond_with-Keeps :
        (call : Call S A) (s : S)
        → ((a : A) → (done a).status ≤ 399)
        → ((e : Error) → (call s).0 ≡ err e → db_of (call s).1 ≡ db_of s)
        → Keeps (respond_with done failed call) s
    unfolding Keeps
    respond_with-Keeps call s small atomic = answer_cases (call s).0 s (call s).1 small atomic

    -- What the call leaves, the handler leaves.
    pub respond_leaves :
        (call : Call S A) (s : S) → db_of (respond_with done failed call s).1 ≡ db_of (call s).1
    respond_leaves call s = answer_leaves (call s).0 (call s).1

    pub respond_with-Keeps_read :
        (call : Call S A) (s : S)
        → db_of (call s).1 ≡ db_of s
        → Keeps (respond_with done failed call) s
    unfolding Keeps
    respond_with-Keeps_read call s reads = λ refused. respond_leaves call s ∙ reads

-- A call without a result, in which a success is impossible.
pub leaves_absent :
    {S A : Type 0} (db_of : S → Db) (call : Call S A) (s : S)
    → ((e : Error) → (call s).0 ≡ err e → db_of (call s).1 ≡ db_of s)
    → ((a : A) → (call s).0 ≡ ok a → db_of (call s).1 ≡ db_of s)
    → db_of (call s).1 ≡ db_of s
leaves_absent db_of call s atomic impossible = elim (Result-cases (call s).0) [
  | inl (a, h) ↦ impossible a h
  | inr (e, h) ↦ atomic e h
]
