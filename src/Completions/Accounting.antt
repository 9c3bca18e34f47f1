-- ===== src/Completions/Accounting.antt =====
-- What is scheduled and stored for a completed request, and what is not for the others.
use llmgov.Base.{◌≡◌, ap, sym, ◌∙◌, inl, inr, Text, ◌⊎◌}
use llmgov.Auth.{Headers}
use llmgov.Models.{ChatCompletionRequest, ChatCompletionResponse}
use llmgov.Externals.{Externals}
use llmgov.Completions.{completed, raised, Failure, Moments, Gateway}
use llmgov.Completions.Route.{admit, chat_completions, chat_completions-stop, chat_completions-next}
use llmgov.Completions.Keeps.{Step-cases}
use llmgov.Completions.Admission.{IsUntouched, admit-IsUntouched}
use llmgov.Completions.Records.{SameRecords}
use llmgov.Completions.Fresh.{IsFresh, respond-IsFresh, respond-raised, earlier-IsFresh}

-- A request that completes was answered from the cache, and then the breaker is not asked, nothing
-- is sent to a provider, and no metrics row, audit or evaluation is made of it; or its response was
-- made from a provider's, and then its background tasks are exactly the audit of the redacted
-- conversation with the response's text, the evaluation, and a cache write of this response if and
-- only if the primary provider, allowed by the breaker, gave it.
pub chat_completions-accounted :
    (e : Externals) (at : Moments e) (trace_id : Text) (request : ChatCompletionRequest e.F)
    (headers : Headers) (g : Gateway e) (result : ChatCompletionResponse)
    → (chat_completions e at trace_id request headers g).0 ≡ completed result
    → IsUntouched g (chat_completions e at trace_id request headers g).1
      ⊎ IsFresh e at trace_id request g (chat_completions e at trace_id request headers g).1 result
chat_completions-accounted e at trace_id request headers g result h =
    let g' = (admit e at trace_id request headers g).1 in
    let same = admit-IsUntouched e at trace_id request headers g in
    elim (Step-cases (admit e at trace_id request headers g).0) [
      | inl (admitted, a) ↦
          let is = chat_completions-next e at trace_id request headers g admitted a in
          rw is (
            inr (
              earlier-IsFresh e at trace_id request g g' _ result same (
                respond-IsFresh e at trace_id request admitted g' result
                  (sym (ap (λ p. p.0) is) ∙ h))))
      | inr (end, a) ↦ rw (chat_completions-stop e at trace_id request headers g end a) (inl same)
    ]

-- A request that fails leaves no metrics row and no background task, also where a provider had
-- answered it.
pub chat_completions-raised :
    (e : Externals) (at : Moments e) (trace_id : Text) (request : ChatCompletionRequest e.F)
    (headers : Headers) (g : Gateway e) (failure : Failure)
    → (chat_completions e at trace_id request headers g).0 ≡ raised failure
    → SameRecords g (chat_completions e at trace_id request headers g).1
chat_completions-raised e at trace_id request headers g failure h =
    let g' = (admit e at trace_id request headers g).1 in
    let same = admit-IsUntouched e at trace_id request headers g in
    elim (Step-cases (admit e at trace_id request headers g).0) [
      | inl (admitted, a) ↦
          let is = chat_completions-next e at trace_id request headers g admitted a in
          let kept =
            respond-raised e at trace_id request admitted g' failure (sym (ap (λ p. p.0) is) ∙ h) in
          rw is (record { rows = kept.rows ∙ same.rows; tasks = kept.tasks ∙ same.tasks })
      | inr (end, a) ↦
          rw (chat_completions-stop e at trace_id request headers g end a)
            (record { rows = same.rows; tasks = same.tasks })
    ]
