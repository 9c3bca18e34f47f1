-- ===== src/RateLimit/Key.antt =====
-- The counter that a check uses belongs to one application and one window.
use native.Mathlib.Nat.{div-mul-le_self, lt-div-mul-add}
use llmgov.Base.{
  ℕ, ◌+◌, ◌<◌, ◌≤◌, ◌≡◌, ◌++◌, Text, codes, str, str_inj, str-Lacks, append_cancel_left, split_last,
  arith,
}
use llmgov.RateLimit.{window_start, rate_key}

-- Two keys are the same only for the same application and the same window, whatever characters the
-- application's name holds.
pub rate_key_inj :
    (app app' : Text) (start start' : ℕ)
    → rate_key app start ≡ rate_key app' start'
    → (app ≡ app') × (start ≡ start')
unfolding rate_key
rate_key_inj app app' start start' e =
    let rest : app ++ (codes ":" ++ str start) ≡ app' ++ (codes ":" ++ str start') =
      append_cancel_left (codes "llmgov:ratelimit:") _ _ e in
    let parts =
      split_last b':' app app' (str start) (str start') (str-Lacks b':' start (omega arith))
        (str-Lacks b':' start' (omega arith)) rest in
    (parts.0, str_inj start start' parts.1)

-- A window holds the times from its start on, for as long as it lasts.
pub window_start_bounds :
    (window now : ℕ)
    → 0 < window
    → (window_start window now ≤ now) × (now < window_start window now + window)
unfolding window_start
window_start_bounds window now h = (div-mul-le_self now window, lt-div-mul-add h)
