-- ===== src/Completions/Checks.antt =====
-- app/api/completions.py, lines 61 to 161: authentication, the rate limit, the streaming guard, the
-- choice of a prompt version and the cache read.
use llmgov.Base.{Bool, true, false, Option, none, some, Text, codes, if◌then◌else◌}
use llmgov.Auth.{
  Headers, Identity, app, invalid_key, auth_unavailable, authenticate_api_key, raw_key_of,
}
use llmgov.RateLimit.{Check, answer, unavailable, crashed, check_rate_limit}
use llmgov.Models.{ChatCompletionResponse}
use llmgov.Cache.{get_cached_completion}
use llmgov.Externals.{Externals, Selection, version, not_found, failed}
use llmgov.Completions.{
  M, Step, next, stop, completed, refused, raised, Moments, invalid_api_key, service_unavailable,
  rate_limit_exceeded, rate_limiter_crashed, streaming_unsupported, registry_failed,
  invalid_cached_payload,
}

module _ (e : Externals) (at : Moments e) (trace_id : Text) where
  identity_reply : Identity → Step Text
  identity_reply (app app_id) = next app_id
  identity_reply invalid_key = stop (refused 401 invalid_api_key trace_id)
  identity_reply auth_unavailable = stop (refused 503 service_unavailable trace_id)

  unfoldable pub authenticate : Headers → M e Text
  unfolding identity_reply
  authenticate headers g = (
    identity_reply
        (authenticate_api_key e.redis e.sha256 (raw_key_of headers) at.authenticated_at g.client),
    g,
  )

  -- A limiter that is unavailable lets the request through.
  rate_reply : Check → Step Unit
  rate_reply (answer true) = next tt
  rate_reply (answer false) = stop (refused 429 rate_limit_exceeded trace_id)
  rate_reply unavailable = next tt
  rate_reply crashed = stop (raised rate_limiter_crashed)

  unfoldable pub limit_rate : Text → M e Unit
  unfolding rate_reply
  limit_rate app_id g =
      let (check, client') = check_rate_limit e.redis app_id 60 60 at.rate_checked_at g.client in
      (rate_reply check, record g { client = client' })

  unfoldable pub reject_streaming : Bool → M e Unit
  reject_streaming stream g = ((if stream then stop (raised streaming_unsupported) else next tt), g)

  version_reply : Selection → Step Text
  version_reply (version v) = next v
  version_reply not_found = next (codes "v1")
  version_reply failed = stop (raised registry_failed)

  unfoldable pub select_prompt : M e Text
  unfolding version_reply
  select_prompt g = (version_reply (e.select_version (codes "default")), g)

  -- `if cached_payload`: an empty dict is a miss; `ChatCompletionResponse(**cached_payload)` raises
  -- where the payload does not validate.
  cached_end : Option ChatCompletionResponse → Step Unit
  cached_end none = stop (raised invalid_cached_payload)
  cached_end (some found) = stop (completed found)

  cache_reply : Option e.Payload → Step Unit
  unfolding cached_end
  cache_reply none = next tt
  cache_reply (some payload) =
      if e.is_empty_payload payload then next tt else cached_end (e.validate payload)

  unfoldable pub read_cache : Text → Text → Text → M e Unit
  unfolding cache_reply
  read_cache prompt_version model prompt_hash g = (
    cache_reply (
        get_cached_completion e.redis e.json prompt_version model prompt_hash at.cache_read_at
          g.client),
    g,
  )
