-- ===== src/Tests/ServiceRuns.antt =====
-- Two requests within a minute, with a cache write of another process in between.
use llmgov.Base.{◌≤◌, ◌≡◌, refl, [], ◌∷◌, some, codes, arith, text_eq, str}
use llmgov.Externals.{Externals, provider_error}
use llmgov.Auth.{authenticate_api_key, raw_key_of, strip_prefix, auth_key}
use llmgov.Breaker.{new, allow_request}
use llmgov.Breaker.Calls.{settle}
use llmgov.RateLimit.{check_rate_limit, window_start}
use llmgov.RateLimit.Window.{concerns}
use llmgov.Cache.{get_cached_completion, build_payload_cache_key}
use llmgov.Externals.{generate_embedding}
use llmgov.Completions.Checks.{
  authenticate, limit_rate, reject_streaming, select_prompt, read_cache,
}
use llmgov.Completions.Calls.{
  start_embedding, call_primary, or_fallback, vector_of, check_jailbreak,
}
use llmgov.Completions.Finish.{write_metrics, add_tasks}
use llmgov.Completions.Route.{admit, ask, finish, chat_completions}
use llmgov.Completions.Service.{Asked, IsOrdered, completions_in, completions_in-le-limit}
use llmgov.Tests.Store.{memory-CountsHits, accounts, update}
use llmgov.Tests.Services.{services, moments, gateway, request, headers}

abbrev shared : Externals
shared = services provider_error

abbrev ask_first : Asked shared
ask_first = record {
  between = λ db. db;
  at = moments provider_error;
  trace_id = codes "t";
  request = request;
  headers = headers (codes "k1");
}

abbrev ask_again : Asked shared
ask_again = record ask_first {
  between = λ db. record db { values = update (codes "x") (some (codes "y")) db.values };
  trace_id = codes "u";
}

asked-IsOrdered : IsOrdered memory-CountsHits 0 (ask_first ∷ ask_again ∷ [])
asked-IsOrdered = (omega arith, λ t key db. omega arith, (omega arith, λ t key db. omega arith, tt))

completions_in-le-limit_example :
    completions_in (codes "a") 0 (ask_first ∷ ask_again ∷ []) (gateway provider_error) ≤ 60
completions_in-le-limit_example =
    completions_in-le-limit memory-CountsHits (codes "a") 0 (ask_first ∷ ask_again ∷ [])
      (gateway provider_error) 0 (accounts (codes "llmgov:auth:k1")) refl asked-IsOrdered

both_completed :
    completions_in (codes "a") 0 (ask_first ∷ ask_again ∷ []) (gateway provider_error) ≡ 2
unfolding completions_in concerns window_start chat_completions admit authenticate limit_rate
    reject_streaming select_prompt read_cache authenticate_api_key raw_key_of auth_key
    check_rate_limit get_cached_completion text_eq strip_prefix ask start_embedding call_primary
    or_fallback check_jailbreak vector_of finish write_metrics add_tasks allow_request new
    generate_embedding str build_payload_cache_key settle
both_completed = refl
