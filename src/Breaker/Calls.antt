-- ===== src/Breaker/Calls.antt =====
-- Calls of the primary provider in flight together. app/api/completions.py asks
-- `allow_request`, awaits the provider, records the outcome and releases the probe in a `finally`
-- block (lines 189 to 210); while one request awaits, others run, in any order.
use llmgov.Base.{ℕ, ◌+◌, ◌≡◌, refl, true, false, arith, if◌then◌else◌}
use llmgov.Breaker.{
  CircuitBreaker, half_open, is_closed, is_half_open, new, allow_request, record_failure,
  record_success, release_half_open_probe,
}

-- How the awaited call ends: it returns, raises one of the listed provider errors, or raises
-- anything else, a cancellation included.
pub data Outcome : Type 0 where
  returned provider_error other_error : Outcome

-- The `try`/`except`/`finally` around the awaited call.
unfoldable pub settle : Outcome → ℕ → CircuitBreaker → CircuitBreaker
unfolding record_failure record_success release_half_open_probe
settle returned now b = release_half_open_probe (record_success b)
settle provider_error now b = release_half_open_probe (record_failure now b)
settle other_error now b = release_half_open_probe b

-- How many calls are in flight that were let through by a closed breaker, and how many as probes.
pub record System : Type 0 where
  pub breaker : CircuitBreaker
  pub regular : ℕ
  pub probes : ℕ

-- A request arrives: a refused one goes to the fallback and is not in flight.
unfoldable pub arrive : ℕ → System → System
unfolding allow_request
arrive now s =
    let (allowed, b) = allow_request now s.breaker in
    if allowed
    then (if is_closed s.breaker.state
        then record s { breaker = b; regular = s.regular + 1 }
        else record s { breaker = b; probes = s.probes + 1 })
    else record s { breaker = b }

infix 40 ◌⟶◌
-- Any call in flight may end at any time and in any way.
pub data ◌⟶◌ (s t : System) : Type 0 where
  arrives : (now : ℕ) → t ≡ arrive now s → s ⟶ t
  regular_ends :
      (o : Outcome) (now n : ℕ)
      → s.regular ≡ n + 1
      → t ≡ record s { breaker = settle o now s.breaker; regular = n }
      → s ⟶ t
  probe_ends :
      (o : Outcome) (now n : ℕ)
      → s.probes ≡ n + 1
      → t ≡ record s { breaker = settle o now s.breaker; probes = n }
      → s ⟶ t

-- A step at which no call that a closed breaker let through ends in a half-open one.
abbrev pub IsPunctual : {s t : System} → s ⟶ t → Type 0
IsPunctual {s = s} (regular_ends o now n h e) = is_half_open s.breaker.state ≡ false
IsPunctual _ = Unit

pub data Punctual (s : System) : System → Type 0 where
  here : Punctual s s
  next : {t u : System} → Punctual s t → (st : t ⟶ u) → IsPunctual st → Punctual s u

-- The probes in flight are those that the breaker marks.
pub record IsMarked (s : System) : Type 0 where
  pub marked : s.breaker.probe_in_flight ≡ true → s.probes ≡ 1
  pub unmarked : s.breaker.probe_in_flight ≡ false → s.probes ≡ 0
  pub probing : s.breaker.probe_in_flight ≡ true → s.breaker.state ≡ half_open

arrive-IsMarked : (now : ℕ) (s : System) → IsMarked s → IsMarked (arrive now s)
unfolding arrive
arrive-IsMarked now s m = ground arith

settle-IsMarked_regular :
    (o : Outcome) (now n : ℕ) (s : System)
    → IsMarked s
    → is_half_open s.breaker.state ≡ false
    → IsMarked (record s { breaker = settle o now s.breaker; regular = n })
unfolding settle
settle-IsMarked_regular returned now n s m h = ground arith
settle-IsMarked_regular provider_error now n s m h = ground arith
settle-IsMarked_regular other_error now n s m h = ground arith

settle-IsMarked_probe :
    (o : Outcome) (now n : ℕ) (s : System)
    → IsMarked s
    → s.probes ≡ n + 1
    → IsMarked (record s { breaker = settle o now s.breaker; probes = n })
unfolding settle
settle-IsMarked_probe returned now n s m h = ground arith
settle-IsMarked_probe provider_error now n s m h = ground arith
settle-IsMarked_probe other_error now n s m h = ground arith

step-IsMarked : {s t : System} (st : s ⟶ t) → IsPunctual st → IsMarked s → IsMarked t
step-IsMarked {s = s} (arrives now e) p m = rw e (arrive-IsMarked now s m)
step-IsMarked {s = s} (regular_ends o now n h e) p m = rw e (settle-IsMarked_regular o now n s m p)
step-IsMarked {s = s} (probe_ends o now n h e) p m = rw e (settle-IsMarked_probe o now n s m h)

-- A gateway that has just started, with nothing in flight.
abbrev pub idle : CircuitBreaker → System
idle b = record { breaker = b; regular = 0; probes = 0 }

-- Whatever arrives and however calls end, as long as no call that a closed breaker let through
-- ends while the breaker is half open, at most one probe is in flight, exactly when the breaker
-- marks one.
pub Punctual-IsMarked :
    (threshold timeout : ℕ) {t : System} → Punctual (idle (new threshold timeout)) t → IsMarked t
unfolding new
Punctual-IsMarked threshold timeout here = ground arith
Punctual-IsMarked threshold timeout (next p st q) =
    step-IsMarked st q (Punctual-IsMarked threshold timeout p)

-- Without that condition the promise of a single probe fails: from every half-open system with a
-- call in flight that a closed breaker had let through, that call may end with an unlisted error,
-- and the next request is let through as one more probe while the breaker is still half open.
pub straggler_admits_probe :
    (s : System) (n now : ℕ)
    → s.breaker.state ≡ half_open
    → s.regular ≡ n + 1
    → (t u : System) × (s ⟶ t) × (t ⟶ u) × (u.breaker.state ≡ half_open) × (u.probes ≡ s.probes + 1)
unfolding settle arrive
straggler_admits_probe s n now h r =
    let t = record s { breaker = settle other_error now s.breaker; regular = n } in
    (
      t,
      arrive now t,
      regular_ends other_error now n r refl,
      arrives now refl,
      ground arith,
      ground arith,
    )
