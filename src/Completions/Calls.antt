-- ===== src/Completions/Calls.antt =====
-- app/api/completions.py, lines 163 to 240: redaction, the embedding, the primary provider behind
-- the breaker, the fallback, and the jailbreak check.
use llmgov.Base.{
  Bool, true, false, ◌||◌, Option, none, some, List, [], ◌∷◌, ◌++◌, reverse, Text, codes, text_eq,
  if◌then◌else◌,
}
use llmgov.Models.{ChatMessage, ChatCompletionRequest}
use llmgov.Breaker.{CircuitBreaker, allow_request}
use llmgov.Breaker.Calls.{Outcome, returned, settle}
use llmgov.Breaker.Calls
use llmgov.Externals.{
  Externals, CompletionCall, ModelResponse, Completion, response, provider_error, other_error,
  embedding_call, generate_embedding,
}
use llmgov.Completions.{
  M, Step, next, stop, raised, Moments, completion, embedding, primary_failed, fallback_failed,
  jailbreak_failed,
}

module _ (e : Externals) where
  abbrev pub redact_message : ChatMessage → ChatMessage
  redact_message m = record m { content = (e.redact_pii m.content).0 }

  -- The loop over the messages: their redacted copies, and whether anything was redacted.
  unfoldable pub redact_messages : List ChatMessage → List ChatMessage × Bool
  redact_messages [] = ([], false)
  redact_messages (m ∷ rest) =
      let (redacted, flag) = redact_messages rest in
      (redact_message m ∷ redacted, (e.redact_pii m.content).1 || flag)

-- `next((m["content"] for m in messages if m["role"] == "user"), default)`
abbrev pub first_user : List ChatMessage → Text → Text
first_user [] default = default
first_user (m ∷ rest) default =
    if text_eq m.role (codes "user") then m.content else first_user rest default

abbrev pub last_content : List ChatMessage → Text
last_content [] = []
last_content (m ∷ rest) = m.content

unfoldable pub latest_user_content : List ChatMessage → Text
latest_user_content messages = first_user (reverse messages) (last_content (reverse messages))

abbrev pub outcome_of : Completion → Outcome
outcome_of (response r) = returned
outcome_of provider_error = Calls.provider_error
outcome_of other_error = Calls.other_error

module _ (e : Externals) (at : Moments e) (request : ChatCompletionRequest e.F) where
  unfoldable pub primary_call : List ChatMessage → CompletionCall e.F
  primary_call messages = record {
    model = request.model;
    api_base = none;
    messages = messages;
    temperature = request.temperature;
    max_tokens = request.max_tokens;
  }

  unfoldable pub fallback_call : List ChatMessage → CompletionCall e.F
  fallback_call messages = record {
    model = codes "ollama/qwen2.5:0.5b";
    api_base = some (codes "http://ollama:11434");
    messages = messages;
    temperature = request.temperature;
    max_tokens = request.max_tokens;
  }

  -- `asyncio.create_task(generate_embedding(...))`: the call is under way from here on.
  unfoldable pub start_embedding : Text → M e Unit
  start_embedding text g =
      (next tt, record g { sent = g.sent ++ embedding (embedding_call text) ∷ [] })

  -- `none` sends the request to the fallback.
  primary_reply : Completion → Step (Option ModelResponse)
  primary_reply (response r) = next (some r)
  primary_reply provider_error = next none
  primary_reply other_error = stop (raised primary_failed)

  -- The awaited call: meanwhile other requests may use the breaker; then its outcome is recorded
  -- and the probe released, whatever the outcome.
  await_primary : List ChatMessage → CircuitBreaker → M e (Option ModelResponse)
  unfolding primary_reply
  await_primary messages admitted g =
      let outcome = e.acompletion (primary_call messages) in
      (
        primary_reply outcome,
        record g {
          breaker = settle (outcome_of outcome) at.settled_at (at.meanwhile admitted);
          sent = g.sent ++ completion (primary_call messages) ∷ [];
        },
      )

  unfoldable pub call_primary : List ChatMessage → M e (Option ModelResponse)
  unfolding await_primary primary_call
  call_primary messages g =
      let (allowed, admitted) = allow_request at.allowed_at g.breaker in
      if allowed
      then await_primary messages admitted g
      else (next none, record g { breaker = admitted })

  -- An exception of the fallback is not caught.
  fallback_reply : Completion → Step (ModelResponse × Bool)
  fallback_reply (response r) = next (r, true)
  fallback_reply provider_error = stop (raised fallback_failed)
  fallback_reply other_error = stop (raised fallback_failed)

  -- The response, and whether the fallback was used.
  unfoldable pub or_fallback : List ChatMessage → Option ModelResponse → M e (ModelResponse × Bool)
  unfolding fallback_reply fallback_call
  or_fallback messages (some r) g = (next (r, false), g)
  or_fallback messages none g = (
    fallback_reply (e.acompletion (fallback_call messages)),
    record g { sent = g.sent ++ completion (fallback_call messages) ∷ [] },
  )

  -- An embedding that fails leaves an empty vector.
  unfoldable pub vector_of : Text → List e.F
  vector_of text = elim (generate_embedding e text) [ none ↦ [] | some vector ↦ vector ]

  jailbreak_reply : Option (e.F × Bool) → Step (e.F × Bool)
  jailbreak_reply none = stop (raised jailbreak_failed)
  jailbreak_reply (some found) = next found

  -- An empty vector is logged as 0.0 and `False`.
  unfoldable pub check_jailbreak : Text → List e.F → M e (e.F × Bool)
  unfolding jailbreak_reply
  check_jailbreak text [] g = (next (e.zero_float, false), g)
  check_jailbreak text (x ∷ xs) g = (jailbreak_reply (e.detect_jailbreak text (x ∷ xs)), g)
