-- ===== src/RateLimit.antt =====
-- app/core/rate_limiter.py: `check_rate_limit`, over the Redis client.
-- `now` is `int(time.time())`; limits and windows are not negative.
pub mod Key
pub mod Window
pub mod Bound
pub mod Exact
pub mod Burst
use llmgov.Base.{
  ℕ, ◌*◌, ◌/◌, Bool, true, false, List, [], ◌∷◌, ◌++◌, Option, none, some, Text, codes, str,
  is_empty, leb, ltb, not, ◌==◌, if◌then◌else◌,
}
use llmgov.Redis.{Redis, Client, incr, expire}

-- How a check ends: it answers, or raises `RateLimiterUnavailableError`, or another exception
-- (a window of no seconds, a pipeline with no replies).
pub data Check : Type 0 where
  answer : Bool → Check
  unavailable : Check
  crashed : Check

unfoldable pub window_start : ℕ → ℕ → ℕ
window_start window_seconds current_time = current_time / window_seconds * window_seconds

unfoldable pub rate_key : Text → ℕ → Text
rate_key app_id start = codes "llmgov:ratelimit:" ++ (app_id ++ (codes ":" ++ str start))

-- `results[0]` against the limit.
unfoldable pub verdict : ℕ → List ℕ → Check
verdict limit [] = crashed
verdict limit (current_count ∷ rest) = answer (not (ltb limit current_count))

module _ (r : Redis) where
  abbrev pub after_pipeline : ℕ → Option (List ℕ) → Check
  after_pipeline limit none = unavailable
  after_pipeline limit (some results) = verdict limit results

  -- `get_redis()` raises where the client is not initialized, inside the `try`.
  increment : Text → ℕ → ℕ → ℕ → Client r → Check × Client r
  unfolding verdict
  increment key limit window_seconds now none = (unavailable, none)
  increment key limit window_seconds now (some db) =
      let (results, db') = r.transaction now (incr key ∷ expire key (window_seconds * 2) ∷ []) db in
      (after_pipeline limit results, some db')

  unfoldable pub check_rate_limit : Text → ℕ → ℕ → ℕ → Client r → Check × Client r
  unfolding increment rate_key window_start
  check_rate_limit app_id limit window_seconds now client =
      if is_empty app_id
      then (answer false, client)
      else if window_seconds == 0
      then (crashed, client)
      else increment (rate_key app_id (window_start window_seconds now)) limit window_seconds now
          client
