-- ===== src/Breaker/Invariant.antt =====
-- What holds of a breaker between two calls of its methods.
use llmgov.Base.{ℕ, ◌<◌, ◌≡◌, true, false, List, [], ◌∷◌, arith}
use llmgov.Breaker.{CircuitBreaker, half_open, is_closed, new, Event, step, run}

pub record IsValid (b : CircuitBreaker) : Type 0 where
  pub positive : 0 < b.failure_threshold
  pub below : is_closed b.state ≡ true → b.failure_count < b.failure_threshold
  pub full : is_closed b.state ≡ false → b.failure_count ≡ b.failure_threshold
  pub probing : b.probe_in_flight ≡ true → b.state ≡ half_open

-- A new breaker with a positive threshold is valid.
pub new-IsValid : (threshold timeout : ℕ) → 0 < threshold → IsValid (new threshold timeout)
unfolding new
new-IsValid threshold timeout h = ground arith

-- Every method keeps the invariant.
pub step-IsValid : (b : CircuitBreaker) (e : Event) → IsValid b → IsValid (step b e)
unfolding step
step-IsValid b e v = ground arith

-- Whatever methods are called on a valid breaker, in whatever order and at whatever times: a
-- closed breaker has counted fewer failures than its threshold, any other exactly the threshold,
-- and a probe is marked in flight only while the breaker is half open.
pub run-IsValid : (b : CircuitBreaker) (es : List Event) → IsValid b → IsValid (run b es)
unfolding run
run-IsValid b [] v = v
run-IsValid b (e ∷ es) v = run-IsValid (step b e) es (step-IsValid b e v)
