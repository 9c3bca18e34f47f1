-- ===== src/Tests/BreakerRuns.antt =====
-- The breaker at a threshold of two failures and a timeout of ten ticks.
use llmgov.Base.{◌≡◌, refl, ◌⊎◌, true, false, List, [], ◌∷◌, map, All, arith}
use llmgov.Breaker.{
  CircuitBreaker, closed, opened, half_open, new, Event, allow, failure, success, release,
  allow_request, step, answers, run,
}
use llmgov.Breaker.Invariant.{IsValid, new-IsValid}
use llmgov.Breaker.Graph.{Edge, step-Edge}
use llmgov.Breaker.Trace.{IsFalse, recovery}
use llmgov.Breaker.Calls.{
  System, provider_error, arrive, settle, ◌⟶◌, arrives, regular_ends, Punctual, here, next,
  IsMarked, idle, Punctual-IsMarked, straggler_admits_probe,
}

abbrev fresh : CircuitBreaker
fresh = new 2 10

fresh-IsValid : IsValid fresh
fresh-IsValid = new-IsValid 2 10 (omega arith)

-- Two failures, a refused request, a probe that fails, one that succeeds.
abbrev day : List Event
day =
    allow 0
    ∷ failure 1
    ∷ failure 2
    ∷ allow 3
    ∷ allow 12
    ∷ failure 13
    ∷ allow 23
    ∷ success
    ∷ release
    ∷ []

day-answers : answers fresh day ≡ true ∷ false ∷ true ∷ true ∷ []
unfolding answers step new
day-answers = refl

abbrev tripped : CircuitBreaker
tripped = record {
  state = opened;
  failure_threshold = 2;
  recovery_timeout = 10;
  failure_count = 2;
  last_failure_time = 2;
  probe_in_flight = false;
}

abbrev probing_again : CircuitBreaker
probing_again = record tripped { state = half_open; probe_in_flight = true }

step-Edge_example :
    ((step tripped (allow 12)).state ≡ opened)
    ⊎ Edge tripped (allow 12) (step tripped (allow 12)).state
step-Edge_example = step-Edge tripped (allow 12)

recovery_example :
    let probing = run tripped (allow 12 ∷ map allow (13 ∷ 14 ∷ [])) in
    All IsFalse (answers (step tripped (allow 12)) (map allow (13 ∷ 14 ∷ [])))
    × ((allow_request 12 tripped).0 ≡ true)
    × (step probing success
        ≡ record tripped { state = closed; failure_count = 0; probe_in_flight = false })
    × (step probing (failure 15)
        ≡ record tripped { last_failure_time = 15; probe_in_flight = false })
recovery_example = recovery tripped 12 (13 ∷ 14 ∷ []) 15 refl (omega arith)

-- With one failure as the threshold: a call that fails, a probe, and a request refused behind it.
abbrev busy : System
busy =
    arrive 12
      (arrive 11 (record { breaker = settle provider_error 1 (new 1 10); regular = 0; probes = 0 }))

busy_reached : Punctual (idle (new 1 10)) busy
unfolding arrive settle new
busy_reached =
    next
      (next (next (next here (arrives 0 refl) tt) (regular_ends provider_error 1 0 refl refl) refl)
        (arrives 11 refl) tt)
      (arrives 12 refl) tt

busy_probes : busy.probes ≡ 1
unfolding arrive settle new
busy_probes = refl

Punctual-IsMarked_example : IsMarked busy
Punctual-IsMarked_example = Punctual-IsMarked 1 10 busy_reached

abbrev overlapping : System
overlapping = record { breaker = probing_again; regular = 1; probes = 1 }

straggler_admits_probe_example :
    (t u : System) × (overlapping ⟶ t) × (t ⟶ u) × (u.breaker.state ≡ half_open) × (u.probes ≡ 2)
straggler_admits_probe_example = straggler_admits_probe overlapping 0 14 refl refl
