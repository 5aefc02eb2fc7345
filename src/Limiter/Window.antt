-- ===== src/Limiter/Window.antt =====
-- The sliding window: pruned and expiring sets count the same requests as a log that forgets nothing.
use multi_trade_platform.Base.{
  ℕ, ◌+◌, ◌-◌, ◌≤◌, ◌<◌, ◌≡◌, refl, arith, Bool, true, false, ◌&&◌, List, [], ◌∷◌, ltb,
  if◌then◌else◌, length, select, Bool-cases, inl, inr, ◌⊎◌, sym, ltb→lt,
}
use multi_trade_platform.Limiter.{
  RateLimiter, Bucket, no_bucket, Link, answered, unreachable, answer_lost, Request, Verdict,
  waved_through, admitted, live, in_window, remaining_times, exec, verdict_of, serve, bucket_after,
}
use multi_trade_platform.Limiter.Times.{
  AllBefore, AllBefore-le, AllBefore-select, contains-AllBefore, live-AllBefore, select-select,
  length-select_le,
}

-- The times of the requests that reached Redis, of which nothing is ever dropped.
abbrev pub recorded : List Request → List ℕ
recorded [] = []
recorded (r ∷ rs) = elim r.link [ unreachable ↦ recorded rs | _ ↦ r.time ∷ recorded rs ]

-- The first time at which the next request can be served.
abbrev pub next_time : List Request → ℕ
next_time [] = 0
next_time (r ∷ rs) = r.time + 1

-- Every request is later than the one before it.
abbrev pub Increasing : List Request → Type 0
Increasing [] = Unit {0}
Increasing (r ∷ rs) = (next_time rs ≤ r.time) × Increasing rs

Link-cases : (l : Link) → (l ≡ answered) ⊎ (l ≡ unreachable) ⊎ (l ≡ answer_lost)
Link-cases answered = inl refl
Link-cases unreachable = inr (inl refl)
Link-cases answer_lost = inr (inr refl)

abbrev is_admitted : Verdict → Bool
is_admitted (admitted n) = true
is_admitted _ = false

module _ (float64 : ℕ → ℕ) (rl : RateLimiter) where
  -- What the limit means: the requests of the window that have reached Redis are counted.
  abbrev pub count_in_window : ℕ → List Request → ℕ
  count_in_window now rs = length (select (in_window float64 rl now) (recorded rs))

  abbrev pub expected : Request → List Request → Verdict
  expected r rs = elim r.link [
    | answered ↦ verdict_of rl (count_in_window r.time rs)
    | unreachable ↦ waved_through
    | answer_lost ↦ waved_through
  ]

  -- How many requests of a window were let through by their count.
  abbrev pub admitted_in_window : ℕ → List Request → ℕ
  admitted_in_window now [] = 0
  admitted_in_window now (r ∷ rs) =
      (if in_window float64 rl now r.time
          && is_admitted (serve float64 rl r (bucket_after float64 rl rs)).0
        then 1
        else 0)
      + admitted_in_window now rs

module _ (float64 : ℕ → ℕ) (monotone : (m n : ℕ) → m ≤ n → float64 m ≤ float64 n)
    (rl : RateLimiter) where
  -- The set of a key and the log give the same counts from a time on.
  record Agrees (n : ℕ) (b : Bucket) (ts : List ℕ) : Type 0 where
    pub set_before : AllBefore n b.times
    pub log_before : AllBefore n ts
    pub same :
        (now : ℕ)
        → n ≤ now
        → remaining_times float64 rl now b ≡ select (in_window float64 rl now) ts

  in_window_later :
      (t now s : ℕ) → t ≤ now → in_window float64 rl now s ≡ true → in_window float64 rl t s ≡ true
  in_window_later t now s le h =
      let m = monotone (t - rl.window) (now - rl.window) (omega arith) in ground arith

  in_window_gone : (t now s : ℕ) → t + rl.window < now → s ≤ t → in_window float64 rl now s ≡ false
  in_window_gone t now s lt le = let m = monotone s (now - rl.window) (omega arith) in ground arith

  select_gone :
      (t now : ℕ) (ts : List ℕ)
      → t + rl.window < now
      → AllBefore (t + 1) ts
      → select (in_window float64 rl now) ts ≡ []
  select_gone t now [] lt all = refl
  select_gone t now (s ∷ ss) lt all =
      let first = in_window_gone t now s lt (omega (arith, all.0)) in
      let rest = select_gone t now ss lt all.1 in ground arith

  no_bucket-Agrees : Agrees 0 no_bucket []
  no_bucket-Agrees = record { set_before = tt; log_before = tt; same = λ now le. ground arith }

  Agrees-le : (m n : ℕ) (b : Bucket) (ts : List ℕ) → m ≤ n → Agrees m b ts → Agrees n b ts
  Agrees-le m n b ts le agrees = record {
    set_before = AllBefore-le m n b.times le agrees.set_before;
    log_before = AllBefore-le m n ts le agrees.log_before;
    same = λ now later. agrees.same now (omega arith);
  }

  exec-Agrees :
      (n t : ℕ) (b : Bucket) (ts : List ℕ)
      → n ≤ t
      → Agrees n b ts
      → Agrees (t + 1) (exec float64 rl t b) (t ∷ ts)
  unfolding exec
  exec-Agrees n t b ts le agrees =
      let kept =
        AllBefore-select (in_window float64 rl t) n (live t b)
          (live-AllBefore t n b agrees.set_before) in
      let new = contains-AllBefore n t (remaining_times float64 rl t b) le kept in
      let older = AllBefore-le n (t + 1) _ (omega (arith, le)) kept in
      let newer : Agrees (t + 1)
          (record { times = t ∷ remaining_times float64 rl t b; expires_at = t + rl.window })
          (t ∷ ts) =
        record {
          set_before = (omega arith, older);
          log_before =
              (omega arith, AllBefore-le n (t + 1) ts (omega (arith, le)) agrees.log_before);
          same = λ now later. elim (Bool-cases (ltb (t + rl.window) now)) [
            | inl gone ↦
                let none_left =
                  select_gone t now (t ∷ ts) (ltb→lt (t + rl.window) now gone) (
                    omega arith,
                    AllBefore-le n (t + 1) ts (omega (arith, le)) agrees.log_before,
                  ) in
                rw gone (sym none_left)
            | inr not_yet ↦
                let twice =
                  select-select (in_window float64 rl t) (in_window float64 rl now) ts
                    (λ s. in_window_later t now s (omega arith)) in
                rw (not_yet, agrees.same t le, twice) refl
          ];
        } in
      rw new newer

  after-Agrees :
      (rs : List Request)
      → Increasing rs
      → Agrees (next_time rs) (bucket_after float64 rl rs) (recorded rs)
  unfolding bucket_after serve
  after-Agrees [] order = no_bucket-Agrees
  after-Agrees (r ∷ rs) order =
      let before = after-Agrees rs order.1 in
      let ran = exec-Agrees (next_time rs) r.time _ _ order.0 before in
      elim (Link-cases r.link) [
        | inl e ↦ rw e ran
        | inr (inl e) ↦
            rw e (Agrees-le (next_time rs) (r.time + 1) _ _ (omega (arith, order.0)) before)
        | inr (inr e) ↦ rw e ran
      ]

  -- If rounding to a float64 is monotone and every request of a key is later than the one before
  -- it, a request is answered as if nothing was ever removed from the set and no key expired: it
  -- is let through when Redis fails, and otherwise exactly when fewer requests than the limit,
  -- rejected ones included, have been recorded in the window before it.
  pub serve-expected :
      (r : Request) (rs : List Request)
      → Increasing (r ∷ rs)
      → (serve float64 rl r (bucket_after float64 rl rs)).0 ≡ expected float64 rl r rs
  unfolding serve
  serve-expected r rs order =
      let same = (after-Agrees rs order.1).same r.time order.0 in
      elim (Link-cases r.link) [
        | inl e ↦ rw (e, same) refl
        | inr (inl e) ↦ rw e refl
        | inr (inr e) ↦ rw e refl
      ]

  admitted_recorded :
      (now : ℕ) (rs : List Request)
      → admitted_in_window float64 rl now rs ≤ count_in_window float64 rl now rs
  unfolding serve
  admitted_recorded now [] = omega arith
  admitted_recorded now (r ∷ rs) =
      let rest = admitted_recorded now rs in
      elim (Link-cases r.link) [
        | inl e ↦ rw e (ground arith)
        | inr (inl e) ↦ rw e (ground arith)
        | inr (inr e) ↦ rw e (ground arith)
      ]

  one_more :
      (inside : Bool) (n count : ℕ)
      → n ≤ count
      → n ≤ rl.max_requests
      → (if inside && is_admitted (verdict_of rl count) then 1 else 0) + n ≤ rl.max_requests
  one_more inside n count le rest = ground arith

  -- If rounding to a float64 is monotone, every request of a key is later than the one before it
  -- and none is later than `now`, then of the requests in the window that ends at `now` at most
  -- the limit were let through by their count, whatever fails and expires in between.
  pub admitted_bounded :
      (now : ℕ) (rs : List Request)
      → Increasing rs
      → next_time rs ≤ now + 1
      → admitted_in_window float64 rl now rs ≤ rl.max_requests
  admitted_bounded now [] order late = omega arith
  admitted_bounded now (r ∷ rs) order late =
      let rest = admitted_bounded now rs order.1 (omega (arith, order.0)) in
      let same = serve-expected r rs order in
      let recorded_before = admitted_recorded now rs in
      let fewer =
        length-select_le (in_window float64 rl r.time) (in_window float64 rl now) (recorded rs)
          (λ s. in_window_later r.time now s (omega arith)) in
      elim (Link-cases r.link) [
        | inl e ↦
            rw (same, e)
              (one_more (in_window float64 rl now r.time) _ (count_in_window float64 rl r.time rs)
                (omega arith) rest)
        | inr (inl e) ↦ rw (same, e) (ground arith)
        | inr (inr e) ↦ rw (same, e) (ground arith)
      ]
