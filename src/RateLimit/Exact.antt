-- ===== src/RateLimit/Exact.antt =====
-- While Redis answers, exactly the first `limit` requests of a window are allowed.
use Prim.Native.Nat.{min}
use llmgov.Base.{
  ℕ, ◌+◌, ◌-◌, ◌*◌, ◌≤◌, ◌<◌, ◌≡◌, refl, ap, ◌∙◌, true, false, inl, inr, List, [], ◌∷◌, Option,
  some, Text, text_eq_iff, is_empty, ltb, if◌then◌else◌, arith, Bool-cases, Option-cases,
}
use llmgov.Redis.{Redis, Client, incr, expire}
use llmgov.RateLimit.{Check, answer, window_start, rate_key, verdict, check_rate_limit}
use llmgov.RateLimit.Window.{
  CountsHits, Request, Ordered, concerns, requests_in, score, allowed_in, same_key, other_key,
  concerns_start, same_window, check-empty, check-named,
}

abbrev pub IsAnswer : Check → Type 0
IsAnswer (answer b) = Unit
IsAnswer _ = ⊥

-- Redis answers at every check.
abbrev pub Answered : (r : Redis) → ℕ → ℕ → List Request → Client r → Type 0
Answered r limit window [] client = Unit
Answered r limit window ((app_id, now) ∷ rest) client =
    IsAnswer (check_rate_limit r app_id limit window now client).0
    × Answered r limit window rest (check_rate_limit r app_id limit window now client).1

-- In the rest of the window, from time `from` on, the key of `app` holds `c`.
pub record HoldsExactly {r : Redis} (law : CountsHits r) (window : ℕ) (app : Text) (start : ℕ)
    (c from : ℕ) (db : r.Db) : Type 0 where
  pub exactly :
      (t : ℕ) → from ≤ t → window_start window t ≡ start → law.count t (rate_key app start) db ≡ c

score_verdict_exactly :
    (limit n : ℕ) (rest : List ℕ)
    → score (verdict limit ((n + 1) ∷ rest)) ≡ (if ltb n limit then 1 else 0)
unfolding verdict
score_verdict_exactly limit n rest = ground arith

empty-not_concerns :
    (window : ℕ) (app : Text) (start : ℕ) (app_id : Text) (now : ℕ)
    → is_empty app ≡ false
    → is_empty app_id ≡ true
    → concerns window app start app_id now ≡ false
unfolding concerns
empty-not_concerns window app start app_id now named e = ground (arith, text_eq_iff app_id app)

module _ {r : Redis} (law : CountsHits r) (limit window : ℕ) (app : Text) (start : ℕ)
    (named : is_empty app ≡ false) (long : 0 < window) (app_id : Text) (now c from : ℕ) (db : r.Db)
    (held : HoldsExactly law window app start c from db) (later : from ≤ now) where
  abbrev hit : ℕ
  hit = if concerns window app start app_id now then 1 else 0

  abbrev gained : Check → ℕ
  gained check = if concerns window app start app_id now then score check else 0

  record Stepped (result : Check × Client r) : Type 0 where
    after : r.Db
    client : result.1 ≡ some after
    holds : HoldsExactly law window app start (c + hit) now after
    gain : gained result.0 ≡ min hit (limit - c)

  abbrev key : Text
  key = rate_key app_id (window_start window now)

  abbrev reached : Option (List ℕ) × r.Db
  reached = r.transaction now (incr key ∷ expire key (window * 2) ∷ []) db

  passed_over :
      (check : Check) (after : r.Db)
      → concerns window app start app_id now ≡ false
      → ((t : ℕ)
          → now ≤ t
          → law.count t (rate_key app start) after ≡ law.count t (rate_key app start) db)
      → Stepped (check, some after)
  passed_over check after m keep = record {
    after = after;
    client = refl;
    holds = record {
      exactly = λ t le q. keep t le ∙ held.exactly t (omega arith) q ∙ rw m (omega arith);
    };
    gain = rw m (omega arith);
  }

  counted :
      (results : List ℕ)
      → reached.0 ≡ some results
      → concerns window app start app_id now ≡ true
      → Stepped (verdict limit results, some reached.1)
  counted results e m =
      let same = same_key window app start app_id now m in
      let s = concerns_start window app start app_id now m in
      let now_holds : law.count now key db ≡ c = rw same (held.exactly now later s) in
      let (rest, shape) = law.reply now (window * 2) key db results e in
      rw shape (record {
        after = reached.1;
        client = refl;
        holds = record {
          exactly = λ t le q.
              rw (← same, m)
                (law.kept now (window * 2) key db results e t le
                    (same_window window start now t long s q)
                  ∙ ap (λ (n : ℕ). n + 1) now_holds);
        };
        gain =
            rw (m, score_verdict_exactly limit (law.count now key db) rest, now_holds)
              (ground arith);
      })

  step :
      IsAnswer (check_rate_limit r app_id limit window now (some db)).0
      → Stepped (check_rate_limit r app_id limit window now (some db))
  step = elim (Bool-cases (is_empty app_id)) [
    | inl e ↦ rw (check-empty r app_id limit window now (some db) e) (λ _.
        passed_over (answer false) db (empty-not_concerns window app start app_id now named e)
          (λ t le. refl))
    | inr full ↦
        rw (check-named r app_id limit window now db full long) (elim (Option-cases reached.0) [
          | inl e ↦ rw e (λ no_answer. absurd no_answer)
          | inr (results, e) ↦ rw e (λ _. elim (Bool-cases (concerns window app start app_id now)) [
            | inl m ↦ counted results e m
            | inr m ↦ passed_over (verdict limit results) reached.1 m (
                law.others now (window * 2) key (rate_key app start) db
                  (other_key window app start app_id now m))
          ])
        ])
  ]

module _ {r : Redis} (law : CountsHits r) (limit window : ℕ) (app : Text) (start : ℕ)
    (named : is_empty app ≡ false) (long : 0 < window) where
  -- Where the application's counter stands at `c` and Redis answers every check, the application is
  -- allowed its first `limit - c` requests of the window and no more, for checks in the order of
  -- time, a name that is not empty, a window of at least a second and a Redis that counts as
  -- `CountsHits` says.
  pub allowed_in-eq-min :
      (rs : List Request) (c from : ℕ) (db : r.Db)
      → HoldsExactly law window app start c from db
      → Ordered from rs
      → Answered r limit window rs (some db)
      → allowed_in r limit window app start rs (some db)
        ≡ min (requests_in window app start rs) (limit - c)
  unfolding allowed_in requests_in
  allowed_in-eq-min [] c from db h o a = omega arith
  allowed_in-eq-min ((app_id, now) ∷ rest) c from db h o a =
      let s = step law limit window app start named long app_id now c from db h o.0 a.0 in
      let hits = hit law limit window app start named long app_id now c from db h o.0 in
      let more = allowed_in-eq-min rest (c + hits) now s.after s.holds o.1 (rw s.client at a.1) in
      rw s.client (rw more (rw s.gain (ground arith)))
