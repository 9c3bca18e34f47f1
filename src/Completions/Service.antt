-- ===== src/Completions/Service.antt =====
-- The route serving requests one after another, while other processes use the same Redis.
use llmgov.Base.{
  ℕ, ◌+◌, ◌-◌, ◌≤◌, ◌≡◌, refl, ◌∙◌, inl, Bool, true, false, none, some, List, [], ◌∷◌, Text, arith,
  if◌then◌else◌,
}
use llmgov.Auth.{Headers, Identity, app, invalid_key, auth_unavailable}
use llmgov.Redis.{Redis, Client}
use llmgov.RateLimit.{Check, answer, unavailable, crashed, rate_key}
use llmgov.RateLimit.Window.{CountsHits, concerns, score}
use llmgov.RateLimit.Bound.{Holds, step}
use llmgov.Models.{ChatCompletionRequest}
use llmgov.Externals.{Externals}
use llmgov.Completions.{End, completed, refused, raised, Moments, Gateway}
use llmgov.Completions.Route.{chat_completions}
use llmgov.Completions.Limited.{
  identity, checked, client_after, chat_completions-client_after, IsCompleted,
  denied-not-IsCompleted,
}

-- A request with all that the route is given for it, and what is done to Redis between the request
-- in front of it and its own: by background tasks, and by other processes.
pub record Asked (e : Externals) : Type 0 where
  pub between : e.redis.Db → e.redis.Db
  pub at : Moments e
  pub trace_id : Text
  pub request : ChatCompletionRequest e.F
  pub headers : Headers

abbrev pub changed : (r : Redis) → (r.Db → r.Db) → Client r → Client r
changed r between none = none
changed r between (some db) = some (between db)

-- The check of the request's application was answered.
abbrev pub is_counted : Check → Bool
is_counted (answer allowed) = true
is_counted _ = false

abbrev pub is_completed : End → Bool
is_completed (completed result) = true
is_completed _ = false

-- Whether a request of an application in a minute is completed with its check answered.
abbrev pub completion_of : Text → ℕ → Identity → (Text → Check) → ℕ → End → ℕ
completion_of name start (app app_id) check now end =
    if concerns 60 name start app_id now
    then (if is_counted (check app_id) then (if is_completed end then 1 else 0) else 0)
    else 0
completion_of name start invalid_key check now end = 0
completion_of name start auth_unavailable check now end = 0

module _ {e : Externals} where
  -- The gateway as the request finds it, and as it leaves it.
  abbrev pub found_by : Asked e → Gateway e → Gateway e
  found_by a g = record g { client = changed e.redis a.between g.client }

  abbrev pub ended_by : Asked e → Gateway e → End × Gateway e
  ended_by a g = chat_completions e a.at a.trace_id a.request a.headers (found_by a g)

  module _ (name : Text) (start : ℕ) where
    unfoldable pub completions_in : List (Asked e) → Gateway e → ℕ
    completions_in [] g = 0
    completions_in (a ∷ rest) g =
        let (end, g') = ended_by a g in
        let f = found_by a g in
        completion_of name start (identity e a.at a.trace_id a.request a.headers f)
          (λ app_id. (checked e a.at a.trace_id a.request a.headers f app_id).0)
          a.at.rate_checked_at end
        + completions_in rest g'

  -- The checks are made in the order of time, and what is done in between takes nothing off any
  -- counter.
  abbrev pub IsOrdered : CountsHits e.redis → ℕ → List (Asked e) → Type 0
  IsOrdered law from [] = Unit
  IsOrdered law from (a ∷ rest) =
      (from ≤ a.at.rate_checked_at)
      × ((t : ℕ) (key : Text) (db : e.redis.Db)
          → law.count t key db ≤ law.count t key (a.between db))
      × IsOrdered law a.at.rate_checked_at rest

not-IsCompleted : (end : End) → ¬ IsCompleted end → is_completed end ≡ false
not-IsCompleted (completed result) h = absurd (h tt)
not-IsCompleted (refused status kind trace_id) h = refl
not-IsCompleted (raised failure) h = refl

module _ {e : Externals} (a : Asked e) (f : Gateway e) (name : Text) (start : ℕ) where
  abbrev pub who : Identity
  who = identity e a.at a.trace_id a.request a.headers f

  abbrev pub check_of : Text → Check
  check_of app_id = (checked e a.at a.trace_id a.request a.headers f app_id).0

  abbrev pub end_of : End
  end_of = (chat_completions e a.at a.trace_id a.request a.headers f).0

  -- A completion that is counted is one that its check allows.
  completion_of-le :
      (app_id : Text) (check : Check)
      → who ≡ app app_id
      → check_of app_id ≡ check
      → completion_of name start (app app_id) check_of a.at.rate_checked_at end_of
        ≤ (if concerns 60 name start app_id a.at.rate_checked_at then score check else 0)
  completion_of-le app_id (answer true) known is = rw is (ground arith)
  completion_of-le app_id (answer false) known is =
      let not_completed =
        not-IsCompleted end_of
          (denied-not-IsCompleted e a.at a.trace_id a.request a.headers f app_id known (inl is)) in
      rw (is, not_completed) (ground arith)
  completion_of-le app_id unavailable known is = rw is (ground arith)
  completion_of-le app_id crashed known is = rw is (ground arith)

module _ {r : Redis} (law : CountsHits r) (name : Text) (start : ℕ) where
  between-Holds :
      (between : r.Db → r.Db) (c from : ℕ) (db : r.Db)
      → ((t : ℕ) (key : Text) (db : r.Db) → law.count t key db ≤ law.count t key (between db))
      → Holds law 60 name start c from db
      → Holds law 60 name start c from (between db)
  between-Holds between c from db grows held = record {
    at_least =
        λ t le same. omega (arith, grows t (rate_key name start) db, held.at_least t le same);
  }

  later-Holds :
      (c from now : ℕ) (db : r.Db)
      → from ≤ now
      → Holds law 60 name start c from db
      → Holds law 60 name start (c + 0) now db
  later-Holds c from now db later held = record {
    at_least = λ t le same. omega (arith, held.at_least t (omega arith) same);
  }

module _ {e : Externals} (law : CountsHits e.redis) (name : Text) (start : ℕ) where
  -- What a request leaves: the completion that it may be is in the counter.
  record Served (a : Asked e) (f : Gateway e) (c : ℕ) : Type 0 where
    gain : ℕ
    after : e.redis.Db
    client : (chat_completions e a.at a.trace_id a.request a.headers f).1.client ≡ some after
    holds : Holds law 60 name start (c + gain) a.at.rate_checked_at after
    counts :
        completion_of name start
          (who a f name start)
          (check_of a f name start)
          a.at.rate_checked_at
          (end_of a f name start)
        ≤ gain
    fits : gain ≤ 60 - c

  module _ (a : Asked e) (g : Gateway e) (c from : ℕ) (db : e.redis.Db)
      (held : Holds law 60 name start c from db) (later : from ≤ a.at.rate_checked_at) where
    abbrev f : Gateway e
    f = record g { client = some db }

    left :
        (who' : Identity)
        → who a f name start ≡ who'
        → (chat_completions e a.at a.trace_id a.request a.headers f).1.client
          ≡ client_after e a.at a.trace_id a.request a.headers f who'
    left who' known =
        rw (← known) (chat_completions-client_after e a.at a.trace_id a.request a.headers f)

    Served-as : (who' : Identity) → who a f name start ≡ who' → Served a f c
    Served-as (app app_id) known =
        let s =
          step law 60 60 name start (omega arith) app_id a.at.rate_checked_at c from db held
            later in
        record {
          gain = _;
          after = s.after;
          client = left (app app_id) known ∙ s.client;
          holds = s.holds;
          counts =
              rw known (
                completion_of-le a f name start app_id (check_of a f name start app_id) known refl);
          fits = s.fits;
        }
    Served-as invalid_key known = record {
      gain = 0;
      after = db;
      client = left invalid_key known;
      holds = later-Holds law name start c from a.at.rate_checked_at db later held;
      counts = rw known (omega arith);
      fits = omega arith;
    }
    Served-as auth_unavailable known = record {
      gain = 0;
      after = db;
      client = left auth_unavailable known;
      holds = later-Holds law name start c from a.at.rate_checked_at db later held;
      counts = rw known (omega arith);
      fits = omega arith;
    }

  completions_in-le :
      (asked : List (Asked e)) (g : Gateway e) (c from : ℕ) (db : e.redis.Db)
      → g.client ≡ some db
      → Holds law 60 name start c from db
      → IsOrdered law from asked
      → completions_in name start asked g ≤ 60 - c
  unfolding completions_in
  completions_in-le [] g c from db is held ordered = omega arith
  completions_in-le (a ∷ rest) g c from db is held (later, grows, ordered) =
      let s =
        Served-as a g c from (a.between db)
          (between-Holds law name start a.between c from db grows held) later _ refl in
      let more =
        completions_in-le rest
          (chat_completions e a.at a.trace_id a.request a.headers
            (record g { client = some (a.between db) })).1
          (c + s.gain) a.at.rate_checked_at s.after s.client s.holds ordered in
      rw is (omega (arith, s.counts, s.fits, more))

  -- Over requests that the route serves one after another, in the order of their checks, at most 60
  -- of an application's in one minute are completed with their check answered, from the cache or by
  -- a provider, whatever else is done to Redis in between that takes nothing off its counters and
  -- however it fails. The Redis client is initialized, and Redis counts as `CountsHits` says.
  pub completions_in-le-limit :
      (asked : List (Asked e)) (g : Gateway e) (from : ℕ) (db : e.redis.Db)
      → g.client ≡ some db
      → IsOrdered law from asked
      → completions_in name start asked g ≤ 60
  completions_in-le-limit asked g from db is ordered =
      completions_in-le asked g 0 from db is (record { at_least = λ t le same. omega arith })
        ordered
