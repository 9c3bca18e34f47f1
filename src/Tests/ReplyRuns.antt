-- ===== src/Tests/ReplyRuns.antt =====
-- Replies of the middleware: a request that no key comes with, and one whose provider fails.
use llmgov.Base.{◌≡◌, refl, [], false, none, some, codes, text_eq}
use llmgov.Auth.{Headers, authenticate_api_key, raw_key_of, strip_prefix, auth_key}
use llmgov.Breaker.{new, allow_request}
use llmgov.RateLimit.{check_rate_limit}
use llmgov.Cache.{get_cached_completion}
use llmgov.Externals.{other_error}
use llmgov.Completions.Checks.{
  authenticate, limit_rate, reject_streaming, select_prompt, read_cache,
}
use llmgov.Completions.Calls.{start_embedding, call_primary}
use llmgov.Completions.Route.{admit, ask, chat_completions}
use llmgov.Middleware.{request_id_of, serve}
use llmgov.Middleware.Trace.{ErrorShows, serve-traced}
use llmgov.Tests.Services.{services, moments, gateway, request, headers}

abbrev asked : Headers
asked = record (headers (codes "k1")) { x_request_id = some (codes "x") }

serve-traced_example :
    let (response, context', g') =
      serve
        (services other_error)
        (moments other_error)
        request
        asked
        []
        (codes "f")
        false
        none
        (gateway other_error) in
    (response.request_id ≡ some (codes "x"))
    × (context' ≡ none)
    × ErrorShows (codes "x") response.body
unfolding request_id_of
serve-traced_example =
    serve-traced (services other_error) (moments other_error) request asked [] (codes "f") false
      none (gateway other_error)

serve_500 :
    (serve
      (services other_error)
      (moments other_error)
      request
      asked
      []
      (codes "f")
      false
      none
      (gateway other_error)).0.status
    ≡ 500
unfolding serve chat_completions admit authenticate limit_rate reject_streaming select_prompt
    read_cache authenticate_api_key raw_key_of auth_key check_rate_limit get_cached_completion
    text_eq strip_prefix ask start_embedding call_primary allow_request new
serve_500 = refl
