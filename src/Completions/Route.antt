-- ===== src/Completions/Route.antt =====
-- app/api/completions.py: `chat_completions` as a whole.
use llmgov.Base.{◌≡◌, Bool, Text, ◌∷◌}
use llmgov.Auth.{Headers}
use llmgov.Models.{ChatCompletionRequest, ChatCompletionResponse}
use llmgov.Cache.{hash_embedding_stub}
use llmgov.Externals.{Externals, ModelResponse}
use llmgov.Completions.{
  M, next, stop, End, Moments, Gateway, audit, evaluate, pass, ended, ◌>>=◌, ◌>>◌,
}
use llmgov.Completions.Checks.{
  authenticate, limit_rate, reject_streaming, select_prompt, read_cache,
}
use llmgov.Completions.Calls.{
  redact_messages, latest_user_content, start_embedding, call_primary, or_fallback, vector_of,
  check_jailbreak,
}
use llmgov.Completions.Finish.{
  to_response, response_content, metrics_row, write_metrics, cache_tasks, add_tasks,
}

module _ (e : Externals) (at : Moments e) (trace_id : Text)
    (request : ChatCompletionRequest e.F) where
  -- Lines 61 to 161, up to a cache miss: the application and the prompt version.
  unfoldable pub admit : Headers → M e (Text × Text)
  admit headers = do
    app_id ← authenticate e at trace_id headers
    limit_rate e at trace_id app_id
    reject_streaming e at trace_id request.stream
    prompt_version ← select_prompt e at trace_id
    read_cache e at trace_id prompt_version request.model
        (hash_embedding_stub e.sha256 e.lower request.messages)
    pass (app_id, prompt_version)

  -- Lines 163 to 240, a cache miss: the response and whether the fallback was used, with the
  -- jailbreak score.
  unfoldable pub ask : M e ((ModelResponse × Bool) × (e.F × Bool))
  ask = do
    let (messages, flag) = redact_messages e request.messages
    let text = latest_user_content messages
    start_embedding e at request text
    answered ← call_primary e at request messages
    used ← or_fallback e at request messages answered
    jailbreak ← check_jailbreak e at request text (vector_of e at request text)
    pass (used, jailbreak)

  -- Lines 242 to 342: the response, the metrics row and the background tasks.
  unfoldable pub finish :
      Text × Text → (ModelResponse × Bool) × (e.F × Bool) → M e ChatCompletionResponse
  finish (app_id, prompt_version) ((answered, fallback_used), (jailbreak_score, is_jailbreak)) = do
    let (messages, flag) = redact_messages e request.messages
    let text = latest_user_content messages
    let result = to_response answered request.model trace_id at.created_at
    let content = response_content result
    let (toxicity_score, is_toxic) = e.classify_toxicity content
    write_metrics e at trace_id app_id request
        (metrics_row e at trace_id app_id request result fallback_used)
    add_tasks e at trace_id app_id request (
        audit trace_id (e.messages_json messages) content flag toxicity_score jailbreak_score
        ∷ evaluate trace_id text content
        ∷ cache_tasks e at trace_id app_id request prompt_version
            (hash_embedding_stub e.sha256 e.lower request.messages) result
            (vector_of e at request text) fallback_used)
    pass result

  -- The route: how the request ends, and the state that it leaves.
  unfoldable pub chat_completions : Headers → Gateway e → End × Gateway e
  chat_completions headers g =
      let (last, g') = (do admitted ← admit headers; asked ← ask; finish admitted asked) g in
      (ended last, g')

  pub chat_completions-stop :
      (headers : Headers) (g : Gateway e) (end : End)
      → (admit headers g).0 ≡ stop end
      → chat_completions headers g ≡ (end, (admit headers g).1)
  unfolding chat_completions
  chat_completions-stop headers g end h = rw h

  -- What follows a cache miss.
  unfoldable pub respond : Text × Text → Gateway e → End × Gateway e
  respond admitted g = let (last, g') = (ask >>= finish admitted) g in (ended last, g')

  pub chat_completions-next :
      (headers : Headers) (g : Gateway e) (admitted : Text × Text)
      → (admit headers g).0 ≡ next admitted
      → chat_completions headers g ≡ respond admitted (admit headers g).1
  unfolding chat_completions respond
  chat_completions-next headers g admitted h = rw h
