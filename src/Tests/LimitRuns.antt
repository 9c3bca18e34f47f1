-- ===== src/Tests/LimitRuns.antt =====
-- The limiter with two requests a window of ten seconds, over the Redis in memory.
use Prim.Native.Nat.{min}
use llmgov.Base.{ℕ, ◌≤◌, ◌≡◌, ◌≢◌, refl, List, [], ◌∷◌, some, Text, codes, arith}
use llmgov.RateLimit.{window_start, check_rate_limit}
use llmgov.RateLimit.Window.{Request, Ordered, requests_in, allowed_in}
use llmgov.RateLimit.Bound.{allowed_in-le-limit}
use llmgov.RateLimit.Exact.{HoldsExactly, Answered, allowed_in-eq-min}
use llmgov.RateLimit.Burst.{burst, burst_allowed}
use llmgov.Tests.Store.{Db, memory, memory-CountsHits, accounts}

abbrev acme : Text
acme = codes "acme"

abbrev empty : Db
empty = accounts []

-- Three requests of one application and one of another, in one window.
abbrev requests : List Request
requests = (acme, 10) ∷ (codes "other", 11) ∷ (acme, 12) ∷ (acme, 19) ∷ []

requests-Ordered : Ordered 0 requests
requests-Ordered = (omega arith, (omega arith, (omega arith, (omega arith, tt))))

allowed_in-le-limit_example : allowed_in memory 2 10 acme 10 requests (some empty) ≤ 2
allowed_in-le-limit_example =
    allowed_in-le-limit memory-CountsHits 2 10 acme 10 (omega arith) requests 0 requests-Ordered
      (some empty)

empty_holds : (start from : ℕ) → HoldsExactly memory-CountsHits 10 acme start 0 from empty
empty_holds start from = record { exactly = λ t le same. refl }

requests-Answered : Answered memory 2 10 requests (some empty)
unfolding check_rate_limit
requests-Answered = (tt, (tt, (tt, (tt, tt))))

allowed_in-eq-min_example :
    allowed_in memory 2 10 acme 10 requests (some empty) ≡ min (requests_in 10 acme 10 requests) 2
allowed_in-eq-min_example =
    allowed_in-eq-min memory-CountsHits 2 10 acme 10 refl (omega arith) requests 0 0 empty
      (empty_holds 10 0) requests-Ordered requests-Answered

windows_differ : window_start 10 19 ≢ window_start 10 20
unfolding window_start
windows_differ e = absurd (omega arith)

burst-Answered : Answered memory 2 10 (burst 2 acme 19 20) (some empty)
unfolding check_rate_limit
burst-Answered = (tt, (tt, (tt, (tt, tt))))

burst_allowed_example :
    (allowed_in memory 2 10 acme (window_start 10 19) (burst 2 acme 19 20) (some empty) ≡ 2)
    × (allowed_in memory 2 10 acme (window_start 10 20) (burst 2 acme 19 20) (some empty) ≡ 2)
burst_allowed_example =
    burst_allowed memory-CountsHits 2 10 acme 19 20 empty refl (omega arith) (omega arith)
      windows_differ (empty_holds (window_start 10 19) 19) (empty_holds (window_start 10 20) 19)
      burst-Answered
