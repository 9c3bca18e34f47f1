-- ===== src/Externals.antt =====
-- What the completions route calls: services outside the repository (LiteLLM and its providers,
-- Redis, ClickHouse, JSON, SHA-256), and the guardrails of app/core as the functions that the route
-- uses. A request's run takes one value of it: the answers that it is given during that request.
use llmgov.Base.{ℕ, Bool, Option, none, some, List, [], ◌∷◌, Text, codes}
use llmgov.Redis.{Redis}
use llmgov.Models.{ChatMessage, ChatCompletionResponse}
use llmgov.Cache.{Json}

-- The arguments of `litellm.acompletion`.
pub record CompletionCall (F : Type 0) : Type 0 where
  pub model : Text
  pub api_base : Option Text
  pub messages : List ChatMessage
  pub temperature : Option F
  pub max_tokens : Option ℕ

-- The arguments of `litellm.aembedding`.
pub record EmbeddingCall : Type 0 where
  pub model : Text
  pub input : List Text
  pub dimensions : ℕ

pub record ModelMessage : Type 0 where
  pub role : Text
  pub content : Option Text

pub record ModelChoice : Type 0 where
  pub index : ℕ
  pub message : ModelMessage
  pub finish_reason : Option Text

pub record ModelUsage : Type 0 where
  pub prompt_tokens : Option ℕ
  pub completion_tokens : Option ℕ
  pub total_tokens : Option ℕ

-- `litellm.ModelResponse`, as far as the route reads it.
pub record ModelResponse : Type 0 where
  pub id : Option Text
  pub created : Option ℕ
  pub model : Option Text
  pub choices : List ModelChoice
  pub usage : Option ModelUsage

-- How an awaited completion ends: with a response, one of the provider errors that the route lists,
-- or any other exception.
pub data Completion : Type 0 where
  response : ModelResponse → Completion
  provider_error : Completion
  other_error : Completion

-- `prompt_registry.select_version(...)`: a version's name, `KeyError` or `ValueError`, or any other
-- exception.
pub data Selection : Type 0 where
  version : Text → Selection
  not_found : Selection
  failed : Selection

pub record MetricsRow (F : Type 0) : Type 0 where
  pub trace_id : Text
  pub app_id : Text
  pub prompt_version : Text
  pub model_requested : Text
  pub model_used : Text
  pub provider : Text
  pub ttft_ms : F
  pub total_duration_ms : F
  pub prompt_tokens : ℕ
  pub completion_tokens : ℕ
  pub calculated_cost : F
  pub status_code : ℕ

pub record Externals : Type 1 where
  -- floats
  pub F : Type 0
  pub zero_float : F
  -- a JSON object as a Python dict
  pub Payload : Type 0
  pub redis : Redis
  pub sha256 : Text → Text
  pub lower : Text → Text
  pub json : Json Payload
  pub is_empty_payload : Payload → Bool
  pub model_dump : ChatCompletionResponse → Payload
  pub validate : Payload → Option ChatCompletionResponse
  pub messages_json : List ChatMessage → Text
  pub vector_json : List F → Text
  -- `none` where `uuid.UUID(trace_id)` or the insert into ClickHouse raises
  pub insert_metrics : MetricsRow F → Option (MetricsRow F)
  pub acompletion : CompletionCall F → Completion
  pub aembedding : EmbeddingCall → Option (List (List F))
  pub select_version : Text → Selection
  pub redact_pii : Text → Text × Bool
  pub classify_toxicity : Text → F × Bool
  -- `none` where embedding the reference prompts raises
  pub detect_jailbreak : Text → List F → Option (F × Bool)

-- app/core/embeddings.py: `generate_embedding`; `response.data[0]` raises where there is no vector.
unfoldable pub embedding_call : Text → EmbeddingCall
embedding_call text = record {
  model = codes "gemini/gemini-embedding-001";
  input = text ∷ [];
  dimensions = 768;
}

abbrev pub first_vector {ℓ} : {A : Type ℓ} → Option (List A) → Option A
first_vector none = none
first_vector (some []) = none
first_vector (some (v ∷ rest)) = some v

unfoldable pub generate_embedding : (e : Externals) → Text → Option (List e.F)
unfolding embedding_call
generate_embedding e text = first_vector (e.aembedding (embedding_call text))
