-- ===== src/Limiter.antt =====
-- internal/middleware/ratelimit.go: a request is let through when the sorted set of its key holds few
-- enough requests of the last window. Times are nanoseconds. A member of the set is the text of a
-- time and its score is the nearest float64, so the set is kept as the list of its times, the latest
-- first; Redis reads the start of the window as a float64 too,
-- and its clock is the server's.
pub mod Times
pub mod Window
use multi_trade_platform.Base.{
  ℕ, ◌+◌, ◌-◌, Bool, true, false, ◌||◌, List, [], ◌∷◌, ◌==◌, ltb, if◌then◌else◌, length, select,
}

pub record RateLimiter : Type 0 where
  pub max_requests : ℕ
  pub window : ℕ

-- The set of a key, and when Redis drops it.
pub record Bucket : Type 0 where
  pub times : List ℕ
  pub expires_at : ℕ

abbrev pub no_bucket : Bucket
no_bucket = record { times = []; expires_at = 0 }

-- What becomes of the pipeline: it is answered, or the client gets an error before or after Redis has
-- run it.
pub data Link : Type 0 where
  answered unreachable answer_lost : Link

pub record Request : Type 0 where
  pub time : ℕ
  pub link : Link

-- With the number of the header X-RateLimit-Remaining.
pub data Verdict : Type 0 where
  waved_through : Verdict
  admitted rejected : ℕ → Verdict

abbrev pub contains : ℕ → List ℕ → Bool
contains t [] = false
contains t (s ∷ ss) = s == t || contains t ss

-- An expired key is an empty set.
abbrev pub live : ℕ → Bucket → List ℕ
live now b = if ltb b.expires_at now then [] else b.times

-- ZADD of a member that is there changes its score.
abbrev pub record_time : ℕ → List ℕ → List ℕ
record_time now ts = if contains now ts then ts else now ∷ ts

abbrev pub verdict_of : RateLimiter → ℕ → Verdict
verdict_of rl count =
    let remaining = rl.max_requests - count in
    if ltb count rl.max_requests then admitted remaining else rejected remaining

module _ (float64 : ℕ → ℕ) where
  -- What ZREMRANGEBYSCORE leaves. Before the first window is over its range is empty.
  abbrev pub in_window : RateLimiter → ℕ → ℕ → Bool
  in_window rl now t = ltb now rl.window || ltb (float64 (now - rl.window)) (float64 t)

  -- The entries that are left when the old ones are removed, which ZCARD counts.
  abbrev pub remaining_times : RateLimiter → ℕ → Bucket → List ℕ
  remaining_times rl now b = select (in_window rl now) (live now b)

  -- The pipeline, on the server.
  unfoldable pub exec : RateLimiter → ℕ → Bucket → Bucket
  exec rl now b = record {
    times = record_time now (remaining_times rl now b);
    expires_at = now + rl.window;
  }

  -- Middleware: the answer to one request, and the set it leaves.
  unfoldable pub serve : RateLimiter → Request → Bucket → Verdict × Bucket
  serve rl r b = elim r.link [
    | answered ↦ (verdict_of rl (length (remaining_times rl r.time b)), exec rl r.time b)
    | unreachable ↦ (waved_through, b)
    | answer_lost ↦ (waved_through, exec rl r.time b)
  ]

  -- The set after the requests of a key, the latest one first.
  unfoldable pub bucket_after : RateLimiter → List Request → Bucket
  bucket_after rl [] = no_bucket
  bucket_after rl (r ∷ rs) = (serve rl r (bucket_after rl rs)).1
