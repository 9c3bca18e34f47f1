-- ===== src/Tests/RequestRuns.antt =====
-- Requests of the gateway that has just started.
use llmgov.Base.{◌≡◌, ◌≢◌, refl, [], ◌∷◌, Text, codes, text_eq}
use llmgov.Auth.{authenticate_api_key, raw_key_of, strip_prefix, auth_key}
use llmgov.Breaker.{allow_request}
use llmgov.RateLimit.{check_rate_limit}
use llmgov.Cache.{get_cached_completion}
use llmgov.Externals.{provider_error, embedding_call}
use llmgov.Completions.{next, refused, invalid_api_key, embedding}
use llmgov.Completions.Checks.{
  authenticate, limit_rate, reject_streaming, select_prompt, read_cache,
}
use llmgov.Completions.Calls.{redact_messages, latest_user_content, primary_call}
use llmgov.Completions.Route.{admit, chat_completions}
use llmgov.Completions.Admission.{IsUntouched}
use llmgov.Completions.Refusal.{Reason, refused-IsUntouched}
use llmgov.Completions.Routing.{planned, chat_completions-planned}
use llmgov.Tests.Services.{services, moments, gateway, request, headers}

abbrev trace : Text
trace = codes "t"

abbrev key : Text
key = codes "k1"

has_messages : request.messages ≢ []
has_messages e = cc

admitted :
    (admit
      (services provider_error)
      (moments provider_error)
      trace
      request
      (headers key)
      (gateway provider_error)).0
    ≡ next (codes "a", codes "v2")
unfolding admit authenticate limit_rate reject_streaming select_prompt read_cache
    authenticate_api_key raw_key_of auth_key check_rate_limit get_cached_completion text_eq
    strip_prefix
admitted = refl

chat_completions-planned_example :
    (chat_completions
      (services provider_error)
      (moments provider_error)
      trace
      request
      (headers key)
      (gateway provider_error)).1.sent
    ≡ embedding (
        embedding_call
          (latest_user_content (redact_messages (services provider_error) request.messages).0))
      ∷ planned
          (services provider_error)
          (moments provider_error)
          trace
          request
          (allow_request 5 (gateway provider_error).breaker).0
          ((services provider_error).acompletion (
            primary_call
              (services provider_error)
              (moments provider_error)
              request
              (redact_messages (services provider_error) request.messages).0))
chat_completions-planned_example =
    chat_completions-planned (services provider_error) (moments provider_error) trace request
      (headers key) (gateway provider_error) (codes "a", codes "v2") admitted

denied :
    (chat_completions
      (services provider_error)
      (moments provider_error)
      trace
      request
      (headers [])
      (gateway provider_error)).0
    ≡ refused 401 invalid_api_key trace
unfolding chat_completions admit authenticate authenticate_api_key raw_key_of
denied = refl

refused-IsUntouched_example :
    IsUntouched
      (gateway provider_error)
      (chat_completions
        (services provider_error)
        (moments provider_error)
        trace
        request
        (headers [])
        (gateway provider_error)).1
    × Reason
        (services provider_error)
        (moments provider_error)
        trace
        request
        (headers [])
        (gateway provider_error)
        401
        invalid_api_key
        trace
refused-IsUntouched_example =
    refused-IsUntouched (services provider_error) (moments provider_error) trace request
      (headers []) (gateway provider_error) 401 invalid_api_key trace denied
