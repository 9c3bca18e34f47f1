-- ===== src/Tests/BackgroundRuns.antt =====
-- The background tasks of a request that the local model has answered.
use llmgov.Base.{ℕ, ◌≡◌, refl, ◌⊎◌, true, none, some, [], codes, text_eq, strip}
use llmgov.Lines.{starts_with}
use llmgov.Auth.{authenticate_api_key, raw_key_of, strip_prefix, auth_key}
use llmgov.Breaker.{new, allow_request}
use llmgov.RateLimit.{check_rate_limit}
use llmgov.Cache.{get_cached_completion}
use llmgov.Eval.{validate_schema}
use llmgov.Externals.{Externals, provider_error, generate_embedding}
use llmgov.Completions.{Gateway}
use llmgov.Completions.Checks.{
  authenticate, limit_rate, reject_streaming, select_prompt, read_cache,
}
use llmgov.Completions.Calls.{
  start_embedding, call_primary, or_fallback, vector_of, check_jailbreak,
}
use llmgov.Completions.Finish.{response_content, to_response, write_metrics, add_tasks}
use llmgov.Completions.Route.{admit, ask, finish, chat_completions}
use llmgov.Completions.Admission.{IsUntouched}
use llmgov.Completions.Fresh.{IsFresh}
use llmgov.Completions.Background.{World, Afterwards, is_initialized, run_tasks}
use llmgov.Completions.Recorded.{IsAlone, IsRecorded, chat_completions-IsRecorded}
use llmgov.Tests.AuditRuns.{tools, tools-IsHealthy, nothing, nothing-IsChained, first_commits}
use llmgov.Tests.EvalRuns.{grader}
use llmgov.Tests.RouteRuns.{local_answer, answered}
use llmgov.Tests.Services.{services, moments, gateway, request, headers}
use llmgov.Tests.Values.{numbers}

abbrev asked : Externals
asked = services provider_error

abbrev afterwards : Afterwards ℕ
afterwards = record {
  audited_at = codes "now";
  rounds = first_commits;
  others = λ found. found;
  cached_at = 8;
}

afterwards-IsAlone : IsAlone afterwards
afterwards-IsAlone = record { first = refl; nothing = λ found. refl }

abbrev gateway_after : Gateway asked
gateway_after =
    (chat_completions asked (moments provider_error) (codes "t") request (headers (codes "k1"))
      (gateway provider_error)).1

abbrev world : World asked numbers
world = record { gateway = gateway_after; ledger = nothing; evals = [] }

still_initialized : is_initialized gateway_after.client ≡ true
unfolding chat_completions admit authenticate limit_rate reject_streaming select_prompt read_cache
    authenticate_api_key raw_key_of auth_key check_rate_limit get_cached_completion text_eq
    strip_prefix ask start_embedding call_primary or_fallback check_jailbreak vector_of finish
    write_metrics add_tasks allow_request new generate_embedding
still_initialized = refl

local_valid : validate_schema grader (response_content local_answer) none ≡ some true
unfolding validate_schema strip starts_with response_content to_response
local_valid = refl

chat_completions-IsRecorded_example :
    let w' = run_tasks tools grader afterwards world.gateway.tasks world in
    (IsUntouched (gateway provider_error) gateway_after × (w' ≡ world))
    ⊎ ((fresh : IsFresh asked
          (moments provider_error)
          (codes "t")
          request
          (gateway provider_error)
          gateway_after
          local_answer)
        × IsRecorded tools grader afterwards
            (moments provider_error)
            (codes "t")
            request
            local_answer
            fresh.version
            fresh.used
            world
            w')
chat_completions-IsRecorded_example =
    chat_completions-IsRecorded tools grader afterwards (moments provider_error) (codes "t") request
      (headers (codes "k1")) (gateway provider_error) local_answer world true answered refl refl
      tools-IsHealthy afterwards-IsAlone (λ row. refl) still_initialized nothing-IsChained
      local_valid
