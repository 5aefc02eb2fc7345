-- ===== src/Tests/Limits.antt =====
-- A limit of two requests in ten nanoseconds.
use multi_trade_platform.Base.{ℕ, ◌≡◌, ◌≤◌, arith, List, [], ◌∷◌}
use multi_trade_platform.Limiter.{
  RateLimiter, Request, Link, answered, unreachable, answer_lost, rejected, exec, serve,
  bucket_after,
}
use multi_trade_platform.Limiter.Window.{
  Increasing, admitted_in_window, serve-expected, admitted_bounded,
}

abbrev two_in_ten : RateLimiter
two_in_ten = record { max_requests = 2; window = 10 }

-- Small times are float64s themselves.
abbrev exact : ℕ → ℕ
exact t = t

exact_monotone : (m n : ℕ) → m ≤ n → exact m ≤ exact n
exact_monotone m n le = le

abbrev request : ℕ → Link → Request
request t l = record { time = t; link = l }

-- The latest one first: the fourth one is the third within ten nanoseconds that Redis knows of.
abbrev earlier : List Request
earlier =
    request 107 answer_lost
    ∷ request 104 unreachable
    ∷ request 101 answered
    ∷ request 90 answered
    ∷ []

abbrev fourth : Request
fourth = request 109 answered

earlier-Increasing : Increasing (fourth ∷ earlier)
earlier-Increasing = (omega arith, (omega arith, (omega arith, (omega arith, (omega arith, tt)))))

serve-expected_example :
    (serve exact two_in_ten fourth (bucket_after exact two_in_ten earlier)).0 ≡ rejected 0
unfolding bucket_after serve exec
serve-expected_example =
    serve-expected exact exact_monotone two_in_ten fourth earlier earlier-Increasing

admitted_bounded_example : admitted_in_window exact two_in_ten 109 (fourth ∷ earlier) ≤ 2
admitted_bounded_example =
    admitted_bounded exact exact_monotone two_in_ten 109 (fourth ∷ earlier) earlier-Increasing
      (omega arith)
