-- ===== src/RateLimit/Window.antt =====
-- How many requests one application is allowed in one window, over any list of requests of any
-- applications.

use llmgov.Base.{
  ℕ, ◌+◌, ◌*◌, ◌≤◌, ◌<◌, ◌≡◌, ◌≢◌, refl, Bool, true, false, ◌&&◌, List, [], ◌∷◌, none, some, Text,
  text_eq, text_eq_iff, is_empty, ◌==◌, ==_iff, if◌then◌else◌, arith,
}
use llmgov.Redis.{Redis, Client, incr, expire}
use llmgov.RateLimit.{Check, answer, after_pipeline, window_start, rate_key, check_rate_limit}
use llmgov.RateLimit.Key.{rate_key_inj, window_start_bounds}

-- What Redis documents of the pipeline that the limiter sends, `INCR` and `EXPIRE` in one
-- transaction: `count` is the number that a key holds at a time, 0 once it has expired.
pub record CountsHits (r : Redis) : Type 0 where
  pub count : ℕ → Text → r.Db → ℕ
  -- the first reply is the number after the increment
  pub reply :
      (now ttl : ℕ) (key : Text) (db : r.Db) (results : List ℕ)
      → (r.transaction now (incr key ∷ expire key ttl ∷ []) db).0 ≡ some results
      → (rest : List ℕ) × (results ≡ (count now key db + 1) ∷ rest)
  -- and the key holds it until it expires
  pub kept :
      (now ttl : ℕ) (key : Text) (db : r.Db) (results : List ℕ)
      → (r.transaction now (incr key ∷ expire key ttl ∷ []) db).0 ≡ some results
      → (t : ℕ) → now ≤ t
      → t < now + ttl
      → count t key (r.transaction now (incr key ∷ expire key ttl ∷ []) db).1 ≡ count now key db + 1
  -- a transaction that fails was executed whole or not at all
  pub failed :
      (now ttl : ℕ) (key : Text) (db : r.Db)
      → (r.transaction now (incr key ∷ expire key ttl ∷ []) db).0 ≡ none
      → (t : ℕ) → now ≤ t
      → t < now + ttl
      → count t key db ≤ count t key (r.transaction now (incr key ∷ expire key ttl ∷ []) db).1
  -- and other keys keep what they hold
  pub others :
      (now ttl : ℕ) (key other : Text) (db : r.Db)
      → other ≢ key
      → (t : ℕ) → now ≤ t
      → count t other (r.transaction now (incr key ∷ expire key ttl ∷ []) db).1 ≡ count t other db

-- A request: the application and the time of its check.
abbrev pub Request : Type 0
Request = Text × ℕ

-- The checks are made in the order of time.
abbrev pub Ordered : ℕ → List Request → Type 0
Ordered t [] = Unit
Ordered t ((app_id, now) ∷ rest) = (t ≤ now) × Ordered now rest

module _ (window : ℕ) (app : Text) (start : ℕ) where
  unfoldable pub concerns : Text → ℕ → Bool
  concerns app_id now = text_eq app_id app && window_start window now == start

  unfoldable pub requests_in : List Request → ℕ
  requests_in [] = 0
  requests_in ((app_id, now) ∷ rest) = (if concerns app_id now then 1 else 0) + requests_in rest

abbrev pub score : Check → ℕ
score (answer true) = 1
score _ = 0

module _ (r : Redis) (limit window : ℕ) (app : Text) (start : ℕ) where
  -- The requests of `app` in the window from `start` that the check allows.
  unfoldable pub allowed_in : List Request → Client r → ℕ
  unfolding concerns
  allowed_in [] client = 0
  allowed_in ((app_id, now) ∷ rest) client =
      let (check, client') = check_rate_limit r app_id limit window now client in
      (if concerns window app start app_id now then score check else 0) + allowed_in rest client'

  check-none :
      (app_id : Text) (now : ℕ)
      → ((check_rate_limit r app_id limit window now none).1 ≡ none)
        × (score (check_rate_limit r app_id limit window now none).0 ≡ 0)
  unfolding check_rate_limit
  check-none app_id now = ground arith

  pub allowed_in-none : (rs : List Request) → allowed_in rs none ≡ 0
  unfolding allowed_in
  allowed_in-none [] = refl
  allowed_in-none ((app_id, now) ∷ rest) =
      rw (check-none app_id now).0
        (rw (check-none app_id now).1 (ground (arith, allowed_in-none rest)))

pub same_key :
    (window : ℕ) (app : Text) (start : ℕ) (app_id : Text) (now : ℕ)
    → concerns window app start app_id now ≡ true
    → rate_key app_id (window_start window now) ≡ rate_key app start
unfolding concerns
same_key window app start app_id now h =
    ground (arith, text_eq_iff app_id app, ==_iff (window_start window now) start)

pub other_key :
    (window : ℕ) (app : Text) (start : ℕ) (app_id : Text) (now : ℕ)
    → concerns window app start app_id now ≡ false
    → rate_key app start ≢ rate_key app_id (window_start window now)
unfolding concerns
other_key window app start app_id now h e =
    let parts = rate_key_inj app app_id start (window_start window now) e in
    ground (arith, text_eq_iff app_id app, ==_iff (window_start window now) start)

pub concerns_start :
    (window : ℕ) (app : Text) (start : ℕ) (app_id : Text) (now : ℕ)
    → concerns window app start app_id now ≡ true
    → window_start window now ≡ start
unfolding concerns
concerns_start window app start app_id now h =
    ground (arith, ==_iff (window_start window now) start)

-- Two times of one window are less than two windows apart.
pub same_window :
    (window start now t : ℕ)
    → 0 < window
    → window_start window now ≡ start
    → window_start window t ≡ start
    → t < now + window * 2
same_window window start now t h p q =
    omega (arith, window_start_bounds window now h, window_start_bounds window t h)

module _ (r : Redis) (app_id : Text) (limit window now : ℕ) where
  pub check-empty :
      (client : Client r)
      → is_empty app_id ≡ true
      → check_rate_limit r app_id limit window now client ≡ (answer false, client)
  unfolding check_rate_limit
  check-empty client e = rw e

  pub check-named :
      (db : r.Db)
      → is_empty app_id ≡ false
      → 0 < window
      → let key = rate_key app_id (window_start window now) in
        let reached = r.transaction now (incr key ∷ expire key (window * 2) ∷ []) db in
        check_rate_limit r app_id limit window now (some db)
        ≡ (after_pipeline r limit reached.0, some reached.1)
  unfolding check_rate_limit
  check-named db named long =
      let nonzero : (window == 0) ≡ false = ground arith in rw (named, nonzero)
