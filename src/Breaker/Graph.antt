-- ===== src/Breaker/Graph.antt =====
-- The state diagram of the breaker, each edge with the call that takes it and its guard.
use llmgov.Base.{ℕ, ◌+◌, ◌≤◌, ◌≡◌, ◌⊎◌, inl, refl, arith}
use llmgov.Breaker.{
  State, CircuitBreaker, closed, opened, half_open, Event, allow, failure, success, release, step,
}

pub data Edge (b : CircuitBreaker) : Event → State → Type 0 where
  trip :
      {now : ℕ}
      → b.state ≡ closed
      → b.failure_threshold ≤ b.failure_count + 1
      → Edge b (failure now) opened
  half :
      {now : ℕ}
      → b.state ≡ opened
      → b.last_failure_time + b.recovery_timeout ≤ now
      → Edge b (allow now) half_open
  trip_again : {now : ℕ} → b.state ≡ half_open → Edge b (failure now) opened
  recover : b.state ≡ half_open → Edge b success closed

-- A call of a method leaves the state alone or takes an edge of the diagram, under its guard.
pub step-Edge :
    (b : CircuitBreaker) (e : Event) → ((step b e).state ≡ b.state) ⊎ Edge b e (step b e).state
unfolding step
step-Edge b (allow now) = grind (arith, half)
step-Edge b (failure now) = grind (arith, trip, trip_again)
step-Edge b success = grind (arith, recover)
step-Edge b release = inl refl
