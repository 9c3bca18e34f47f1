-- ===== src/Breaker/Trace.antt =====
-- What the breaker answers over lists of calls: when it trips, what it refuses, how it recovers.
use llmgov.Base.{
  ℕ, ◌+◌, ◌≤◌, ◌<◌, ◌≡◌, ◌∙◌, refl, ap, Bool, true, false, List, [], ◌∷◌, ◌++◌, map, arith, length,
  All,
}
use llmgov.Breaker.{
  CircuitBreaker, closed, opened, half_open, Event, allow, failure, success, release, allow_request,
  step, answers, run,
}
use llmgov.Breaker.Invariant.{IsValid}

abbrev pub IsFalse : Bool → Type 0
IsFalse a = a ≡ false

failure_counts :
    (b : CircuitBreaker) (t : ℕ)
    → b.state ≡ closed
    → b.failure_count + 1 < b.failure_threshold
    → step b (failure t) ≡ record b { failure_count = b.failure_count + 1 }
unfolding step
failure_counts b t s h = ground arith

failure_trips :
    (b : CircuitBreaker) (t : ℕ)
    → b.state ≡ closed
    → b.failure_count + 1 ≡ b.failure_threshold
    → step b (failure t)
      ≡ record b { state = opened; failure_count = b.failure_threshold; last_failure_time = t }
unfolding step
failure_trips b t s h = ground arith

failure_opened : (b : CircuitBreaker) (t : ℕ) → b.state ≡ opened → step b (failure t) ≡ b
unfolding step
failure_opened b t s = ground arith

-- Failures too few to reach the threshold are counted, and change nothing else.
pub run_below_threshold :
    (b : CircuitBreaker) (times : List ℕ)
    → b.state ≡ closed
    → b.failure_count + length times < b.failure_threshold
    → run b (map failure times) ≡ record b { failure_count = b.failure_count + length times }
unfolding run
run_below_threshold b [] s h = ground arith
run_below_threshold b (t ∷ ts) s h =
    ap (λ c. run c (map failure ts)) (failure_counts b t s (omega arith))
    ∙ run_below_threshold (record b { failure_count = b.failure_count + 1 }) ts s (omega arith)
    ∙ ground arith

run_opened :
    (b : CircuitBreaker) (times : List ℕ) → b.state ≡ opened → run b (map failure times) ≡ b
unfolding run
run_opened b [] s = refl
run_opened b (t ∷ ts) s =
    ap (λ c. run c (map failure ts)) (failure_opened b t s) ∙ run_opened b ts s

-- In a closed breaker the failure that makes the count reach the threshold trips it, and fixes the
-- time from which the recovery timeout runs: failures recorded later do not move that time.
pub run_trips :
    (b : CircuitBreaker) (times : List ℕ) (now : ℕ) (later : List ℕ)
    → b.state ≡ closed
    → b.failure_count + length times + 1 ≡ b.failure_threshold
    → run b (map failure (times ++ now ∷ later))
      ≡ record b { state = opened; failure_count = b.failure_threshold; last_failure_time = now }
unfolding run
run_trips b [] now later s h =
    ap (λ c. run c (map failure later)) (failure_trips b now s (omega arith))
    ∙ run_opened _ later refl
run_trips b (t ∷ ts) now later s h =
    ap (λ c. run c (map failure (ts ++ now ∷ later))) (failure_counts b t s (omega arith))
    ∙ run_trips (record b { failure_count = b.failure_count + 1 }) ts now later s (omega arith)

-- Whether a call happens before `deadline`; only `allow` and `failure` read the clock.
abbrev pub IsBefore : ℕ → Event → Type 0
IsBefore deadline (allow now) = now < deadline
IsBefore deadline (failure now) = now < deadline
IsBefore deadline _ = Unit

opened_step :
    (b : CircuitBreaker) (e : Event)
    → IsValid b
    → b.state ≡ opened
    → IsBefore (b.last_failure_time + b.recovery_timeout) e
    → step b e ≡ b
unfolding step
opened_step b (allow now) v s h = ground arith
opened_step b (failure now) v s h = ground arith
opened_step b success v s h = ground arith
opened_step b release v s h = ground arith

opened_answer :
    (b : CircuitBreaker) (now : ℕ)
    → b.state ≡ opened
    → now < b.last_failure_time + b.recovery_timeout
    → (allow_request now b).0 ≡ false
unfolding allow_request
opened_answer b now s h = ground arith

-- An open breaker before its timeout: whatever is called, no request is allowed and nothing of the
-- breaker changes.
pub open_rejects :
    (b : CircuitBreaker) (es : List Event)
    → IsValid b
    → b.state ≡ opened
    → All (IsBefore (b.last_failure_time + b.recovery_timeout)) es
    → (run b es ≡ b) × All IsFalse (answers b es)
unfolding run answers
open_rejects b [] v s h = (refl, tt)
open_rejects b (allow now ∷ es) v s h =
    rw (opened_step b (allow now) v s h.0, run)
      (let rest = open_rejects b es v s h.1 in (rest.0, (opened_answer b now s h.0, rest.1)))
open_rejects b (failure now ∷ es) v s h =
    rw (opened_step b (failure now) v s h.0) (open_rejects b es v s h.1)
open_rejects b (success ∷ es) v s h = rw (opened_step b success v s h.0) (open_rejects b es v s h.1)
open_rejects b (release ∷ es) v s h = rw (opened_step b release v s h.0) (open_rejects b es v s h.1)

probe_step :
    (b : CircuitBreaker) (t : ℕ)
    → b.state ≡ half_open
    → b.probe_in_flight ≡ true
    → step b (allow t) ≡ b
unfolding step
probe_step b t s p = ground arith

probe_answer :
    (b : CircuitBreaker) (t : ℕ)
    → b.state ≡ half_open
    → b.probe_in_flight ≡ true
    → (allow_request t b).0 ≡ false
unfolding allow_request
probe_answer b t s p = ground arith

-- While a probe is marked in flight a half-open breaker refuses every request and stays as it is.
pub probe_excludes :
    (b : CircuitBreaker) (times : List ℕ)
    → b.state ≡ half_open
    → b.probe_in_flight ≡ true
    → (run b (map allow times) ≡ b) × All IsFalse (answers b (map allow times))
unfolding run answers
probe_excludes b [] s p = (refl, tt)
probe_excludes b (t ∷ ts) s p =
    rw (probe_step b t s p, run)
      (let rest = probe_excludes b ts s p in (rest.0, (probe_answer b t s p, rest.1)))

half_step :
    (b : CircuitBreaker) (now : ℕ)
    → b.state ≡ opened
    → b.last_failure_time + b.recovery_timeout ≤ now
    → step b (allow now) ≡ record b { state = half_open; probe_in_flight = true }
unfolding step
half_step b now s h = ground arith

allowed_after_timeout :
    (b : CircuitBreaker) (now : ℕ)
    → b.state ≡ opened
    → b.last_failure_time + b.recovery_timeout ≤ now
    → (allow_request now b).0 ≡ true
unfolding allow_request
allowed_after_timeout b now s h = ground arith

probe_succeeds :
    (b : CircuitBreaker)
    → step (record b { state = half_open; probe_in_flight = true }) success
      ≡ record b { state = closed; failure_count = 0; probe_in_flight = false }
unfolding step
probe_succeeds b = refl

probe_fails :
    (b : CircuitBreaker) (t : ℕ)
    → b.state ≡ opened
    → step (record b { state = half_open; probe_in_flight = true }) (failure t)
      ≡ record b { last_failure_time = t; probe_in_flight = false }
unfolding step
probe_fails b t s = ground arith

-- Once the timeout has passed an open breaker lets one request through as a probe and refuses
-- those behind it; the probe's success closes the breaker and clears its count, and its failure
-- opens it again from the time of that failure.
pub recovery :
    (b : CircuitBreaker) (now : ℕ) (times : List ℕ) (failed : ℕ)
    → b.state ≡ opened
    → b.last_failure_time + b.recovery_timeout ≤ now
    → let probing = run b (allow now ∷ map allow times) in
      All IsFalse (answers (step b (allow now)) (map allow times))
      × ((allow_request now b).0 ≡ true)
      × (step probing success
          ≡ record b { state = closed; failure_count = 0; probe_in_flight = false })
      × (step probing (failure failed)
          ≡ record b { last_failure_time = failed; probe_in_flight = false })
unfolding run
recovery b now times failed s h =
    let rest =
      probe_excludes (record b { state = half_open; probe_in_flight = true }) times refl refl in
    rw (half_step b now s h, run, rest.0)
      (rest.1, allowed_after_timeout b now s h, probe_succeeds b, probe_fails b failed s)
