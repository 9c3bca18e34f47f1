-- ===== src/RateLimit/Bound.antt =====
-- No application is allowed more than `limit` requests in one window.
use llmgov.Base.{
  ℕ, ◌+◌, ◌-◌, ◌*◌, ◌≤◌, ◌<◌, ◌≡◌, refl, true, false, inl, inr, List, [], ◌∷◌, Option, none, some,
  Text, is_empty, if◌then◌else◌, arith, Bool-cases, Option-cases,
}
use llmgov.Redis.{Redis, Client, incr, expire}
use llmgov.RateLimit.{Check, unavailable, window_start, rate_key, verdict, check_rate_limit}
use llmgov.RateLimit.Window.{
  CountsHits, Request, Ordered, concerns, score, allowed_in, allowed_in-none, same_key, other_key,
  concerns_start, same_window, check-empty, check-named,
}

module _ {r : Redis} (law : CountsHits r) (window : ℕ) (app : Text) (start : ℕ) where
  -- In the rest of the window, from time `from` on, the key of `app` holds at least `c`.
  pub record Holds (c from : ℕ) (db : r.Db) : Type 0 where
    pub at_least :
        (t : ℕ) → from ≤ t → window_start window t ≡ start → c ≤ law.count t (rate_key app start) db

score_verdict :
    (limit n : ℕ) (rest : List ℕ)
    → (score (verdict limit ((n + 1) ∷ rest)) ≤ 1)
      × (score (verdict limit ((n + 1) ∷ rest)) ≤ limit - n)
unfolding verdict
score_verdict limit n rest = ground arith

module _ {r : Redis} (law : CountsHits r) (limit window : ℕ) (app : Text) (start : ℕ)
    (long : 0 < window) (app_id : Text) (now c from : ℕ) (db : r.Db)
    (held : Holds law window app start c from db) (later : from ≤ now) where
  abbrev key : Text
  key = rate_key app_id (window_start window now)

  abbrev reached : Option (List ℕ) × r.Db
  reached = r.transaction now (incr key ∷ expire key (window * 2) ∷ []) db

  counted :
      (results : List ℕ)
      → reached.0 ≡ some results
      → concerns window app start app_id now ≡ true
      → Holds law window app start (c + 1) now reached.1
        × (c ≤ law.count now key db)
        × ((rest : List ℕ) × (results ≡ (law.count now key db + 1) ∷ rest))
  counted results e m =
      let same = same_key window app start app_id now m in
      let s = concerns_start window app start app_id now m in
      let low : c ≤ law.count now key db = rw same (held.at_least now later s) in
      (
        record {
          at_least = λ t le q. rw (← same) (
              omega (
                arith,
                low,
                law.kept now (window * 2) key db results e t le
                    (same_window window start now t long s q),
              ));
        },
        low,
        law.reply now (window * 2) key db results e,
      )

  passed_over :
      concerns window app start app_id now ≡ false → Holds law window app start c now reached.1
  passed_over m = record {
    at_least = λ t le q.
        rw
          (law.others now (window * 2) key (rate_key app start) db
            (other_key window app start app_id now m) t le)
          (held.at_least t (omega arith) q);
  }

  failed_call :
      reached.0 ≡ none
      → concerns window app start app_id now ≡ true
      → Holds law window app start c now reached.1
  failed_call e m =
      let same = same_key window app start app_id now m in
      let s = concerns_start window app start app_id now m in
      record {
        at_least = λ t le q. rw (← same) (
            omega (
              arith,
              law.failed now (window * 2) key db e t le (same_window window start now t long s q),
              rw (← same) at (held.at_least t (omega arith) q),
            ));
      }

  -- What a check that ends so adds to the requests allowed.
  abbrev pub gained : Check → ℕ
  gained check = if concerns window app start app_id now then score check else 0

  pub record Stepped (result : Check × Client r) : Type 0 where
    pub after : r.Db
    pub client : result.1 ≡ some after
    pub holds : Holds law window app start (c + gained result.0) now after
    pub fits : gained result.0 ≤ limit - c

  gained-le_score : (check : Check) → gained check ≤ score check
  gained-le_score check = ground arith

  stepped :
      (check : Check) (after : r.Db) (g : ℕ)
      → Holds law window app start (c + g) now after
      → gained check ≤ g
      → gained check ≤ limit - c
      → Stepped (check, some after)
  stepped check after g h le_g le_limit = record {
    after = after;
    client = refl;
    holds = record { at_least = λ t le q. omega (arith, h.at_least t le q, le_g) };
    fits = le_limit;
  }

  idle_step :
      (check : Check) (after : r.Db)
      → Holds law window app start c now after
      → gained check ≡ 0
      → Stepped (check, some after)
  idle_step check after h g =
      stepped check after 0 (record { at_least = λ t le q. omega (arith, h.at_least t le q) })
        (omega arith) (omega arith)

  waits : Holds law window app start c now db
  waits = record { at_least = λ t le q. held.at_least t (omega arith) q }

  answered_step :
      (results : List ℕ)
      → reached.0 ≡ some results
      → Stepped (verdict limit results, some reached.1)
  answered_step results e = elim (Bool-cases (concerns window app start app_id now)) [
    | inl m ↦
        let (h, low, (rest, shape)) = counted results e m in
        let bound = score_verdict limit (law.count now key db) rest in
        let check = verdict limit ((law.count now key db + 1) ∷ rest) in
        let small = gained-le_score check in
        rw shape (
          stepped check reached.1 1 h (omega (arith, bound, small))
            (omega (arith, bound, small, low)))
    | inr m ↦ idle_step (verdict limit results) reached.1 (passed_over m) (rw m)
  ]

  failed-Holds : reached.0 ≡ none → Holds law window app start c now reached.1
  failed-Holds e = elim (Bool-cases (concerns window app start app_id now)) [
    | inl m ↦ failed_call e m
    | inr m ↦ passed_over m
  ]

  pub step : Stepped (check_rate_limit r app_id limit window now (some db))
  step = elim (Bool-cases (is_empty app_id)) [
    | inl e ↦
        rw (check-empty r app_id limit window now (some db) e) (idle_step _ db waits (ground arith))
    | inr named ↦
        rw (check-named r app_id limit window now db named long) (elim (Option-cases reached.0) [
          | inl e ↦ rw e (idle_step unavailable reached.1 (failed-Holds e) (ground arith))
          | inr (results, e) ↦ rw e (answered_step results e)
        ])
  ]

module _ {r : Redis} (law : CountsHits r) (limit window : ℕ) (app : Text) (start : ℕ)
    (long : 0 < window) where
  allowed_in-le :
      (rs : List Request) (c from : ℕ) (db : r.Db)
      → Holds law window app start c from db
      → Ordered from rs
      → allowed_in r limit window app start rs (some db) ≤ limit - c
  unfolding allowed_in
  allowed_in-le [] c from db h o = omega arith
  allowed_in-le ((app_id, now) ∷ rest) c from db h o =
      let s = step law limit window app start long app_id now c from db h o.0 in
      let more =
        allowed_in-le rest
          (c
            + gained law limit window app start long app_id now c from db h o.0
                (check_rate_limit r app_id limit window now (some db)).0)
          now s.after s.holds o.1 in
      rw s.client (omega (arith, s.fits, more))

-- Over requests of any applications in the order of time, with any failures of Redis and from any
-- contents of its database, the checks allow at most `limit` requests of an application in one
-- window; windows are at least a second long, and Redis counts as `CountsHits` says.
pub allowed_in-le-limit :
    {r : Redis} (law : CountsHits r) (limit window : ℕ) (app : Text) (start : ℕ)
    → 0 < window
    → (rs : List Request) (from : ℕ) → Ordered from rs
    → (client : Client r) → allowed_in r limit window app start rs client ≤ limit
allowed_in-le-limit law limit window app start long rs from o none =
    rw allowed_in-none (omega arith)
allowed_in-le-limit law limit window app start long rs from o (some db) = omega (
  arith,
  allowed_in-le law limit window app start long rs 0 from db
      (record { at_least = λ t le q. omega arith }) o,
)
