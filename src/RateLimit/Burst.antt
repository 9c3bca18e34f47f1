-- ===== src/RateLimit/Burst.antt =====
-- The window is fixed, not sliding: what two neighbouring windows allow adds up.
use llmgov.Base.{
  ℕ, zero, suc, ◌+◌, ◌≤◌, ◌<◌, ◌≡◌, ◌≢◌, refl, ap, true, false, List, [], ◌∷◌, ◌++◌, some, Text,
  text_eq_iff, is_empty, ==_iff, arith,
}
use mathlib.Core.List.{append-nil}
use llmgov.Redis.{Redis}
use llmgov.RateLimit.{window_start}
use llmgov.RateLimit.Window.{CountsHits, Request, Ordered, concerns, requests_in, allowed_in}
use llmgov.RateLimit.Exact.{HoldsExactly, Answered, allowed_in-eq-min}

-- `n` requests of an application at one time.
abbrev pub at_once : ℕ → Text → ℕ → List Request
at_once zero app now = []
at_once (suc n) app now = (app, now) ∷ at_once n app now

-- `n` requests at one time, and then `n` at another.
abbrev pub burst : ℕ → Text → ℕ → ℕ → List Request
burst n app first second = at_once n app first ++ at_once n app second

concerns_own :
    (window : ℕ) (app : Text) (now : ℕ)
    → concerns window app (window_start window now) app now ≡ true
unfolding concerns
concerns_own window app now =
    ground (arith, text_eq_iff app app, ==_iff (window_start window now) (window_start window now))

concerns_other :
    (window : ℕ) (app : Text) (start now : ℕ)
    → window_start window now ≢ start
    → concerns window app start app now ≡ false
unfolding concerns
concerns_other window app start now h = ground (arith, ==_iff (window_start window now) start)

module _ (window : ℕ) (app : Text) (start : ℕ) where
  requests_in-own :
      (n now : ℕ) (rest : List Request)
      → concerns window app start app now ≡ true
      → requests_in window app start (at_once n app now ++ rest)
        ≡ n + requests_in window app start rest
  unfolding requests_in
  requests_in-own zero now rest h = omega arith
  requests_in-own (suc n) now rest h = rw h (omega (arith, requests_in-own n now rest h))

  requests_in-other :
      (n now : ℕ) (rest : List Request)
      → concerns window app start app now ≡ false
      → requests_in window app start (at_once n app now ++ rest) ≡ requests_in window app start rest
  unfolding requests_in
  requests_in-other zero now rest h = refl
  requests_in-other (suc n) now rest h = rw h (omega (arith, requests_in-other n now rest h))

requests_in-nil : (window : ℕ) (app : Text) (start : ℕ) → requests_in window app start [] ≡ 0
unfolding requests_in
requests_in-nil window app start = refl

Ordered-earlier : (from now : ℕ) (rs : List Request) → from ≤ now → Ordered now rs → Ordered from rs
Ordered-earlier from now [] h o = tt
Ordered-earlier from now ((app, t) ∷ rest) h o = (omega (arith, o.0), o.1)

Ordered-at_once :
    (n : ℕ) (app : Text) (from now : ℕ) (rest : List Request)
    → from ≤ now
    → Ordered now rest
    → Ordered from (at_once n app now ++ rest)
Ordered-at_once zero app from now rest h o = Ordered-earlier from now rest h o
Ordered-at_once (suc n) app from now rest h o =
    (h, Ordered-at_once n app now now rest (omega arith) o)

append-nil_at_once : (n : ℕ) (app : Text) (now : ℕ) → at_once n app now ++ [] ≡ at_once n app now
append-nil_at_once n app now = append-nil _

-- From empty counters and while Redis answers, an application is allowed `limit` requests at one
-- time and `limit` more at another time of another window, however close the two times are: twice
-- the limit within any span that meets two windows. The name is not empty, windows are at least a
-- second long, and Redis counts as `CountsHits` says.
pub burst_allowed :
    {r : Redis} (law : CountsHits r) (limit window : ℕ) (app : Text) (first second : ℕ) (db : r.Db)
    → is_empty app ≡ false
    → 0 < window
    → first ≤ second
    → window_start window first ≢ window_start window second
    → HoldsExactly law window app (window_start window first) 0 first db
    → HoldsExactly law window app (window_start window second) 0 first db
    → Answered r limit window (burst limit app first second) (some db)
    → (allowed_in r limit window app
          (window_start window first)
          (burst limit app first second)
          (some db)
        ≡ limit)
      × (allowed_in r limit window app
            (window_start window second)
            (burst limit app first second)
            (some db)
          ≡ limit)
burst_allowed law limit window app first second db named long le apart h h' a =
    let rs = burst limit app first second in
    let second_only = at_once limit app second in
    let o = Ordered-at_once limit app first first second_only (omega arith) (
      rw (← append-nil_at_once limit app second)
        (Ordered-at_once limit app first second [] le tt)) in
    let first_here =
      requests_in-own window app (window_start window first) limit first second_only
        (concerns_own window app first) in
    let first_there =
      requests_in-other window app (window_start window second) limit first second_only
        (concerns_other window app (window_start window second) first apart) in
    let second_here =
      requests_in-own window app (window_start window second) limit second []
        (concerns_own window app second) in
    (
      omega (
        arith,
        first_here,
        allowed_in-eq-min law limit window app (window_start window first) named long rs 0 first db
            h o a,
      ),
      omega (
        arith,
        first_there,
        ap (requests_in window app (window_start window second)) (append-nil second_only),
        second_here,
        requests_in-nil window app (window_start window second),
        allowed_in-eq-min law limit window app (window_start window second) named long rs 0 first db
            h' o a,
      ),
    )
