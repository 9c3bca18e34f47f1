-- ===== src/Tests/RouteRuns.antt =====
-- Whole requests that complete or fail, with services that answer as they are told.
use llmgov.Base.{◌≡◌, refl, ◌⊎◌, Text, codes, text_eq, arith, false}
use llmgov.Models.{ChatCompletionResponse}
use llmgov.Auth.{authenticate_api_key, raw_key_of, strip_prefix, auth_key}
use llmgov.Breaker.{new, allow_request}
use llmgov.Breaker.Invariant.{IsValid, new-IsValid}
use llmgov.RateLimit.{check_rate_limit}
use llmgov.Cache.{get_cached_completion}
use llmgov.Externals.{provider_error, other_error, generate_embedding}
use llmgov.Completions.{completed, raised, primary_failed}
use llmgov.Completions.Checks.{
  authenticate, limit_rate, reject_streaming, select_prompt, read_cache,
}
use llmgov.Completions.Calls.{
  start_embedding, call_primary, or_fallback, vector_of, check_jailbreak,
}
use llmgov.Completions.Finish.{to_response, write_metrics, add_tasks}
use llmgov.Completions.Route.{admit, ask, finish, chat_completions}
use llmgov.Completions.Admission.{IsUntouched}
use llmgov.Completions.Provider.{chat_completions-IsValid}
use llmgov.Completions.Fresh.{IsFresh}
use llmgov.Completions.Accounting.{chat_completions-accounted, chat_completions-raised}
use llmgov.Completions.Records.{SameRecords}
use llmgov.Tests.Services.{reply, services, moments, gateway, request, headers}

abbrev trace : Text
trace = codes "t"

abbrev key : Text
key = codes "k1"

gateway-IsValid : IsValid (gateway provider_error).breaker
unfolding new
gateway-IsValid = unfold new in new-IsValid 5 30 (omega arith)

chat_completions-IsValid_example :
    let after =
      (chat_completions
        (services provider_error)
        (moments provider_error)
        trace
        request
        (headers key)
        (gateway provider_error)).1.breaker in
    IsValid after
    × ((gateway provider_error).breaker.probe_in_flight ≡ false → after.probe_in_flight ≡ false)
chat_completions-IsValid_example =
    chat_completions-IsValid (services provider_error) (moments provider_error) trace request
      (headers key) (gateway provider_error) (λ b v. v) gateway-IsValid

abbrev pub local_answer : ChatCompletionResponse
local_answer = to_response (reply (codes "local")) (codes "gemini/g") trace 7

pub answered :
    (chat_completions
      (services provider_error)
      (moments provider_error)
      trace
      request
      (headers key)
      (gateway provider_error)).0
    ≡ completed local_answer
unfolding chat_completions admit authenticate limit_rate reject_streaming select_prompt read_cache
    authenticate_api_key raw_key_of auth_key check_rate_limit get_cached_completion text_eq
    strip_prefix ask start_embedding call_primary or_fallback check_jailbreak vector_of finish
    write_metrics add_tasks allow_request new generate_embedding
answered = refl

chat_completions-accounted_example :
    IsUntouched
      (gateway provider_error)
      (chat_completions
        (services provider_error)
        (moments provider_error)
        trace
        request
        (headers key)
        (gateway provider_error)).1
    ⊎ IsFresh
        (services provider_error)
        (moments provider_error)
        trace
        request
        (gateway provider_error)
        (chat_completions
          (services provider_error)
          (moments provider_error)
          trace
          request
          (headers key)
          (gateway provider_error)).1
        local_answer
chat_completions-accounted_example =
    chat_completions-accounted (services provider_error) (moments provider_error) trace request
      (headers key) (gateway provider_error) local_answer answered

failed :
    (chat_completions
      (services other_error)
      (moments other_error)
      trace
      request
      (headers key)
      (gateway other_error)).0
    ≡ raised primary_failed
unfolding chat_completions admit authenticate limit_rate reject_streaming select_prompt read_cache
    authenticate_api_key raw_key_of auth_key check_rate_limit get_cached_completion text_eq
    strip_prefix ask start_embedding call_primary allow_request new
failed = refl

chat_completions-raised_example :
    SameRecords
      (gateway other_error)
      (chat_completions
        (services other_error)
        (moments other_error)
        trace
        request
        (headers key)
        (gateway other_error)).1
chat_completions-raised_example =
    chat_completions-raised (services other_error) (moments other_error) trace request (headers key)
      (gateway other_error) primary_failed failed
