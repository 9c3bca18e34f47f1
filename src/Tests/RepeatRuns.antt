-- ===== src/Tests/RepeatRuns.antt =====
-- A response in the cache, and the same request again a minute later, under another trace id.
use llmgov.Base.{◌≡◌, refl, inl, some, [], ◌∷◌, Text, codes, text_eq, arith, strip}
use llmgov.Auth.{authenticate_api_key, raw_key_of, auth_key, strip_prefix}
use llmgov.RateLimit.{check_rate_limit}
use llmgov.Models.{ChatCompletionResponse}
use llmgov.Cache.{
  set_commands, hash_embedding_stub, set_cached_completion, build_payload_cache_key, normalize,
  normalized_text,
}
use llmgov.Externals.{Externals, other_error}
use llmgov.Completions.{Moments, Gateway, completed}
use llmgov.Completions.Route.{chat_completions}
use llmgov.Completions.Admission.{IsUntouched}
use llmgov.Completions.Repeat.{LeavesOthers, IsStorable, IsAdmitted, chat_completions-repeated}
use llmgov.Tests.Store.{memory, memory-KeepsValues, Db, accounts}
use llmgov.Tests.CacheRuns.{quoted, quoted-RoundTrips}
use llmgov.Tests.Services.{services, gateway, request, headers}

memory-LeavesOthers : LeavesOthers memory
memory-LeavesOthers = record { kept = λ now ttl t key other db h. refl }

abbrev first_response : ChatCompletionResponse
first_response = record {
  id = codes "r";
  object = codes "chat.completion";
  created = 1;
  model = codes "gemini/g";
  choices = [];
  usage = record { prompt_tokens = 1; completion_tokens = 1; total_tokens = 2 };
  trace_id = some (codes "first");
}

-- The providers fail.
abbrev down : Externals
down = record (services other_error) { json = quoted; validate = λ t. some first_response }

abbrev now : Moments down
now = record {
  authenticated_at = 65;
  rate_checked_at = 65;
  cache_read_at = 65;
  allowed_at = 65;
  settled_at = 66;
  created_at = 67;
  elapsed_ms = 1;
  meanwhile = λ b. b;
}

abbrev cached_key : Text
cached_key = hash_embedding_stub (λ t. t) (λ t. t) request.messages

abbrev after : Db
after =
    (memory.transaction 5
      (set_commands memory quoted (codes "v2") request.model cached_key (codes "r") (codes "[]"))
      (accounts (codes "llmgov:auth:k1"))).1

abbrev again : Gateway down
again = record {
  breaker = (gateway other_error).breaker;
  client = some after;
  sent = [];
  rows = [];
  tasks = [];
}

storable : IsStorable down first_response
storable = record { full = refl; valid = refl }

admitted : IsAdmitted now request (headers (codes "k1")) again (codes "a") (codes "v2")
unfolding authenticate_api_key raw_key_of auth_key strip_prefix check_rate_limit text_eq
    set_commands
admitted = record { known = refl; allowed = inl refl; plain = refl; selected = refl }

chat_completions-repeated_example :
    ((chat_completions down now (codes "second") request (headers (codes "k1")) again).0
      ≡ completed first_response)
    × IsUntouched again
        (chat_completions down now (codes "second") request (headers (codes "k1")) again).1
unfolding set_commands set_cached_completion build_payload_cache_key text_eq hash_embedding_stub
    normalized_text normalize strip
chat_completions-repeated_example =
    chat_completions-repeated memory-KeepsValues memory-LeavesOthers quoted-RoundTrips now
      (codes "second") request (headers (codes "k1")) again (codes "a") (codes "v2") first_response
      storable admitted (codes "[]") 5 (accounts (codes "llmgov:auth:k1")) after (1 ∷ 1 ∷ []) refl
      refl after refl refl (omega arith) (omega arith) (some (codes "\"r")) refl
