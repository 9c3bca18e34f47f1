-- ===== src/Tests/Services.antt =====
-- Services with fixed answers, over the Redis in memory, and a gateway that has just started. The
-- local model always answers; the primary provider answers as it is told.
use llmgov.Base.{ℕ, true, false, [], ◌∷◌, none, some, Text, codes, is_empty, text_eq, if◌then◌else◌}
use llmgov.Models.{ChatCompletionRequest}
use llmgov.Auth.{Headers}
use llmgov.Breaker.{new}
use llmgov.Externals.{Externals, ModelResponse, Completion, response, version}
use llmgov.Completions.{Moments, Gateway}
use llmgov.Tests.Store.{memory, accounts}

abbrev pub reply : Text → ModelResponse
reply text = record {
  id = some (codes "r");
  created = none;
  model = none;
  choices =
      record {
        index = 0;
        message = record { role = codes "assistant"; content = some text };
        finish_reason = none;
      }
      ∷ [];
  usage = none;
}

abbrev pub services : Completion → Externals
services primary = record {
  F = ℕ;
  zero_float = 0;
  Payload = Text;
  redis = memory;
  sha256 = λ t. t;
  lower = λ t. t;
  json = record { dumps = λ t. t; loads = λ t. some t };
  is_empty_payload = is_empty;
  model_dump = λ r. r.id;
  validate = λ t. none;
  messages_json = λ ms. codes "[]";
  vector_json = λ v. codes "[]";
  insert_metrics = λ row. some row;
  acompletion =
      λ call. elim call.api_base [ none ↦ primary | some base ↦ response (reply (codes "local")) ];
  aembedding = λ call. some ((1 ∷ []) ∷ []);
  select_version = λ name. version (codes "v2");
  redact_pii = λ t. if text_eq t (codes "a@b.co") then (codes "[EMAIL]", true) else (t, false);
  classify_toxicity = λ t. (0, false);
  detect_jailbreak = λ t v. some (3, false);
}

abbrev pub moments : (primary : Completion) → Moments (services primary)
moments primary = record {
  authenticated_at = 5;
  rate_checked_at = 5;
  cache_read_at = 5;
  allowed_at = 5;
  settled_at = 6;
  created_at = 7;
  elapsed_ms = 1;
  meanwhile = λ b. b;
}

abbrev pub gateway : (primary : Completion) → Gateway (services primary)
gateway primary = record {
  breaker = new 5 30;
  client = some (accounts (codes "llmgov:auth:k1"));
  sent = [];
  rows = [];
  tasks = [];
}

abbrev pub request : ChatCompletionRequest ℕ
request = record {
  model = codes "gemini/g";
  messages = record { role = codes "user"; content = codes "a@b.co" } ∷ [];
  temperature = none;
  max_tokens = none;
  stream = false;
}

abbrev pub headers : Text → Headers
headers key = record { authorization = none; x_api_key = some key; x_request_id = none }
