-- ===== src/Breaker.antt =====
-- app/core/circuit_breaker.py: `CircuitBreakerState` and the methods of `CircuitBreaker`.
-- A method takes the breaker and returns it changed; `time.monotonic()` is the argument `now`.
-- Times and the timeout are counted in ticks of the clock, so the float comparison
-- `now - last_failure_time >= recovery_timeout` is `last_failure_time + recovery_timeout ≤ now`.
pub mod Invariant
pub mod Graph
pub mod Trace
pub mod Calls
use llmgov.Base.{ℕ, ◌+◌, Bool, true, false, List, [], ◌∷◌, leb, if◌then◌else◌}

pub data State : Type 0 where
  closed opened half_open : State

pub record CircuitBreaker : Type 0 where
  pub state : State
  pub failure_threshold : ℕ
  pub recovery_timeout : ℕ
  pub failure_count : ℕ
  pub last_failure_time : ℕ
  pub probe_in_flight : Bool

abbrev pub is_closed : State → Bool
is_closed closed = true
is_closed _ = false

abbrev pub is_opened : State → Bool
is_opened opened = true
is_opened _ = false

abbrev pub is_half_open : State → Bool
is_half_open half_open = true
is_half_open _ = false

-- `__init__`
unfoldable pub new : ℕ → ℕ → CircuitBreaker
new threshold timeout = record {
  state = closed;
  failure_threshold = threshold;
  recovery_timeout = timeout;
  failure_count = 0;
  last_failure_time = 0;
  probe_in_flight = false;
}

unfoldable pub allow_request : ℕ → CircuitBreaker → Bool × CircuitBreaker
allow_request now b =
    if is_closed b.state
    then (true, b)
    else if is_opened b.state
    then (if leb (b.last_failure_time + b.recovery_timeout) now
        then (true, record b { state = half_open; probe_in_flight = true })
        else (false, b))
    else if is_half_open b.state
    then (if b.probe_in_flight then (false, b) else (true, record b { probe_in_flight = true }))
    else (false, b)

unfoldable pub record_failure : ℕ → CircuitBreaker → CircuitBreaker
record_failure now b =
    if is_half_open b.state
    then record b { probe_in_flight = false; state = opened; last_failure_time = now }
    else if is_closed b.state
    then (let c = record b { failure_count = b.failure_count + 1 } in
        if leb c.failure_threshold c.failure_count
        then record c { state = opened; last_failure_time = now }
        else c)
    else b

-- The two tests of `record_success`, one after the other: the second sees what the first wrote.
close_half_open : CircuitBreaker → CircuitBreaker
close_half_open b =
    if is_half_open b.state then record b { probe_in_flight = false; state = closed } else b

unfoldable pub record_success : CircuitBreaker → CircuitBreaker
unfolding close_half_open
record_success b =
    let c = close_half_open b in if is_closed c.state then record c { failure_count = 0 } else c

unfoldable pub release_half_open_probe : CircuitBreaker → CircuitBreaker
release_half_open_probe b = record b { probe_in_flight = false }

-- A call of a method, with the clock's reading where the method takes one.
pub data Event : Type 0 where
  allow : ℕ → Event
  failure : ℕ → Event
  success : Event
  release : Event

unfoldable pub step : CircuitBreaker → Event → CircuitBreaker
unfolding allow_request record_failure record_success release_half_open_probe
step b (allow now) = (allow_request now b).1
step b (failure now) = record_failure now b
step b success = record_success b
step b release = release_half_open_probe b

-- The answers that `allow_request` gave, in order.
unfoldable pub answers : CircuitBreaker → List Event → List Bool
unfolding allow_request
answers b [] = []
answers b (allow now ∷ es) = (allow_request now b).0 ∷ answers (step b (allow now)) es
answers b (failure now ∷ es) = answers (step b (failure now)) es
answers b (success ∷ es) = answers (step b success) es
answers b (release ∷ es) = answers (step b release) es

unfoldable pub run : CircuitBreaker → List Event → CircuitBreaker
run b [] = b
run b (e ∷ es) = run (step b e) es
