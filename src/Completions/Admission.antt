-- ===== src/Completions/Admission.antt =====
-- What the checks in front of the cache change and let through.
use llmgov.Base.{◌≡◌, refl, ◌⊎◌, Bool, true, false, Text, arith}
use llmgov.Auth.{Headers, app, authenticate_api_key, raw_key_of}
use llmgov.RateLimit.{answer, unavailable, check_rate_limit}
use llmgov.Models.{ChatCompletionRequest}
use llmgov.Externals.{Externals}
use llmgov.Completions.{next, Moments, Gateway}
use llmgov.Completions.Checks.{
  authenticate, limit_rate, reject_streaming, select_prompt, read_cache,
}
use llmgov.Completions.Route.{admit}
use llmgov.Completions.Keeps.{Keeps, Keeps-pass, Keeps-read, Keeps-bind}

-- Nothing but the Redis client has changed since `g`.
pub record IsUntouched {e : Externals} (g g' : Gateway e) : Type 0 where
  pub breaker : g'.breaker ≡ g.breaker
  pub sent : g'.sent ≡ g.sent
  pub rows : g'.rows ≡ g.rows
  pub tasks : g'.tasks ≡ g.tasks

module _ (e : Externals) (at : Moments e) (trace_id : Text) (g : Gateway e) where
  authenticate-IsUntouched :
      (headers : Headers) → Keeps (IsUntouched g) (authenticate e at trace_id headers)
  unfolding authenticate
  authenticate-IsUntouched headers = Keeps-read _

  limit_rate-IsUntouched : (app_id : Text) → Keeps (IsUntouched g) (limit_rate e at trace_id app_id)
  unfolding limit_rate
  limit_rate-IsUntouched app_id = record {
    at = λ g' h. record { breaker = h.breaker; sent = h.sent; rows = h.rows; tasks = h.tasks };
  }

  reject_streaming-IsUntouched :
      (stream : Bool) → Keeps (IsUntouched g) (reject_streaming e at trace_id stream)
  unfolding reject_streaming
  reject_streaming-IsUntouched stream = Keeps-read _

  select_prompt-IsUntouched : Keeps (IsUntouched g) (select_prompt e at trace_id)
  unfolding select_prompt
  select_prompt-IsUntouched = Keeps-read _

  read_cache-IsUntouched :
      (prompt_version model prompt_hash : Text)
      → Keeps (IsUntouched g) (read_cache e at trace_id prompt_version model prompt_hash)
  unfolding read_cache
  read_cache-IsUntouched prompt_version model prompt_hash = Keeps-read _

ruleset untouched_rules = (
  Keeps-pass, Keeps-bind, authenticate-IsUntouched, limit_rate-IsUntouched,
  reject_streaming-IsUntouched, select_prompt-IsUntouched, read_cache-IsUntouched,
)

module _ (e : Externals) (at : Moments e) (trace_id : Text) (request : ChatCompletionRequest e.F)
    (headers : Headers) (g : Gateway e) where
  admit-Keeps : Keeps (IsUntouched g) (admit e at trace_id request headers)
  unfolding admit
  admit-Keeps = search untouched_rules depth 12

  pub admit-IsUntouched : IsUntouched g (admit e at trace_id request headers g).1
  admit-IsUntouched =
      admit-Keeps.at g (record { breaker = refl; sent = refl; rows = refl; tasks = refl })

  -- A request that passes the checks belongs to an authenticated application that the limiter has
  -- not denied (it may have been unavailable), and does not ask for streaming.
  pub admit-next :
      (app_id prompt_version : Text)
      → (admit e at trace_id request headers g).0 ≡ next (app_id, prompt_version)
      → (authenticate_api_key e.redis e.sha256 (raw_key_of headers) at.authenticated_at g.client
          ≡ app app_id)
        × (let check = (check_rate_limit e.redis app_id 60 60 at.rate_checked_at g.client).0 in
            (check ≡ answer true) ⊎ (check ≡ unavailable))
        × (request.stream ≡ false)
  unfolding admit authenticate limit_rate reject_streaming select_prompt read_cache
  admit-next app_id prompt_version h = ground arith
