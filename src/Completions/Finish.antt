-- ===== src/Completions/Finish.antt =====
-- app/api/completions.py, lines 46 to 48 and 242 to 342: the response, its toxicity, the metrics row
-- and the background tasks.
use llmgov.Base.{
  ℕ, zero, suc, Bool, Option, none, some, List, [], ◌∷◌, ◌++◌, map, Text, codes, ◌==◌,
  if◌then◌else◌,
}
use llmgov.Models.{ChatCompletionRequest, ChatCompletionResponse, Choice, UsageInfo}
use llmgov.Externals.{Externals, ModelResponse, ModelChoice, ModelUsage, MetricsRow}
use llmgov.Completions.{M, next, Moments, Task, write_cache}

-- `value or default` of a text and of a number: the empty text and 0 are false.
abbrev pub text_or : Option Text → Text → Text
text_or none default = default
text_or (some []) default = default
text_or (some (c ∷ t)) default = c ∷ t

abbrev pub number_or : Option ℕ → ℕ → ℕ
number_or none default = default
number_or (some zero) default = default
number_or (some (suc n)) default = suc n

-- The text in front of the first slash; `none` where there is none.
unfoldable pub before_slash : Text → Option Text
before_slash [] = none
before_slash (c ∷ t) =
    let rest = before_slash t in
    if c == b'/' then some [] else elim rest [ none ↦ none | some s ↦ some (c ∷ s) ]

unfoldable pub extract_provider : Text → Text
extract_provider model = elim (before_slash model) [ none ↦ codes "unknown" | some s ↦ s ]

abbrev to_choice : ModelChoice → Choice
to_choice c = record {
  index = c.index;
  message = record { role = c.message.role; content = c.message.content };
  finish_reason = c.finish_reason;
}

abbrev to_usage : Option ModelUsage → UsageInfo
to_usage none = record { prompt_tokens = 0; completion_tokens = 0; total_tokens = 0 }
to_usage (some u) = record {
  prompt_tokens = number_or u.prompt_tokens 0;
  completion_tokens = number_or u.completion_tokens 0;
  total_tokens = number_or u.total_tokens 0;
}

unfoldable pub to_response : ModelResponse → Text → Text → ℕ → ChatCompletionResponse
to_response r model trace_id now = record {
  id = text_or r.id (codes "llmgov-" ++ trace_id);
  object = codes "chat.completion";
  created = number_or r.created now;
  model = text_or r.model model;
  choices = map to_choice r.choices;
  usage = to_usage r.usage;
  trace_id = some trace_id;
}

-- The contents that are there and not empty.
unfoldable pub contents : List Choice → List Text
contents [] = []
contents (c ∷ rest) = elim c.message.content [
  | none ↦ contents rest
  | some [] ↦ contents rest
  | some (x ∷ t) ↦ (x ∷ t) ∷ contents rest
]

-- `" ".join(...)`
unfoldable pub join_spaces : List Text → Text
join_spaces [] = []
join_spaces (t ∷ []) = t
join_spaces (t ∷ u ∷ rest) = t ++ (codes " " ++ join_spaces (u ∷ rest))

unfoldable pub response_content : ChatCompletionResponse → Text
unfolding contents join_spaces
response_content r = join_spaces (contents r.choices)

module _ (e : Externals) (at : Moments e) (trace_id app_id : Text)
    (request : ChatCompletionRequest e.F) where
  unfoldable pub metrics_row : ChatCompletionResponse → Bool → MetricsRow e.F
  unfolding extract_provider before_slash
  metrics_row result fallback_used = record {
    trace_id = trace_id;
    app_id = app_id;
    prompt_version = [];
    model_requested = request.model;
    model_used = result.model;
    provider = if fallback_used then codes "ollama" else extract_provider request.model;
    ttft_ms = e.zero_float;
    total_duration_ms = at.elapsed_ms;
    prompt_tokens = result.usage.prompt_tokens;
    completion_tokens = result.usage.completion_tokens;
    calculated_cost = e.zero_float;
    status_code = 200;
  }

  -- `write_metrics` of app/core/telemetry.py: what raises in it is logged and dropped.
  unfoldable pub write_metrics : MetricsRow e.F → M e Unit
  write_metrics row g = (
    next tt,
    elim (e.insert_metrics row) [
      | none ↦ g
      | some stored ↦ record g { rows = g.rows ++ stored ∷ [] }
    ],
  )

  -- The cache is written only where the fallback was not used.
  unfoldable pub cache_tasks :
      Text → Text → ChatCompletionResponse → List e.F → Bool → List (Task e)
  cache_tasks prompt_version prompt_hash result vector fallback_used =
      if fallback_used
      then []
      else write_cache prompt_version request.model prompt_hash (e.model_dump result) vector ∷ []

  unfoldable pub add_tasks : List (Task e) → M e Unit
  add_tasks new g = (next tt, record g { tasks = g.tasks ++ new })
