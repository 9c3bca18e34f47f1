-- ===== src/Completions/Recorded.antt =====
-- What a completed request leaves once its background tasks have run.
use llmgov.Base.{
  ◌≡◌, ◌⊎◌, ◌∙◌, refl, ap, inl, inr, Bool, true, false, none, some, List, [], ◌∷◌, ◌++◌, Text,
  if◌then◌else◌,
}
use llmgov.Auth.{Headers}
use llmgov.Redis.{Client}
use llmgov.Models.{ChatMessage, ChatCompletionRequest, ChatCompletionResponse}
use llmgov.Cache.{hash_embedding_stub, set_cached_completion}
use llmgov.Audit.{Tools, AuditRow, Ledger, Entry, commits, record_audit_log}
use llmgov.Audit.Chain.{IsChained, IsHealthy, next_row, record-alone, next-IsChained}
use llmgov.Floats.{Floats}
use llmgov.Eval.{Grader, validate_schema, ask_judge}
use llmgov.Eval.Recorded.{IsStored, judge_model, row_with, settled, evaluate-row_with}
use llmgov.Externals.{Externals}
use llmgov.Completions.{completed, Moments, Gateway, Task}
use llmgov.Completions.Calls.{redact_messages, latest_user_content, vector_of}
use llmgov.Completions.Finish.{response_content}
use llmgov.Completions.Route.{chat_completions}
use llmgov.Completions.Fresh.{IsFresh, fresh_tasks}
use llmgov.Completions.Admission.{IsUntouched}
use llmgov.Completions.Accounting.{chat_completions-accounted}
use llmgov.Completions.Background.{World, Afterwards, is_initialized, run_tasks}

-- No other call of the audit log sets the key or inserts a row while the audit runs, and its first
-- round commits.
pub record IsAlone {F : Type 0} (given : Afterwards F) : Type 0 where
  pub first : given.rounds 0 ≡ commits
  pub nothing : (found : Ledger F) → given.others found ≡ found

module _ {e : Externals} (tools : Tools e.F) {f : Floats} (grader : Grader f)
    (given : Afterwards e.F) (at : Moments e) (trace_id : Text)
    (request : ChatCompletionRequest e.F) (result : ChatCompletionResponse) where
  abbrev messages : List ChatMessage
  messages = (redact_messages e request.messages).0

  abbrev content : Text
  content = response_content result

  -- One row in the audit log, of this request and this response, and the log is one chain; one row of
  -- evaluation results; and, for a response of the primary provider, the response in the cache.
  pub record IsRecorded (version : Text) (used : Bool) (w w' : World e f) : Type 0 where
    pub row : AuditRow e.F
    pub rows : w'.ledger.rows ≡ w.ledger.rows ++ row ∷ []
    pub of_request :
        (row.entry.trace_id ≡ trace_id)
        × (row.entry.sanitized_prompt ≡ e.messages_json messages)
        × (row.entry.raw_response ≡ content)
        × (row.entry.has_pii_redacted ≡ (redact_messages e request.messages).1)
    pub chained : IsChained tools w'.ledger
    pub is_valid : Bool
    pub validated : validate_schema grader content none ≡ some is_valid
    pub evals :
        w'.evals
        ≡ w.evals
          ++ row_with grader trace_id
              (latest_user_content messages)
              content
              none
              false
              none
              is_valid
              (settled grader trace_id
                (latest_user_content messages)
                content
                none
                false
                none
                (ask_judge grader judge_model (latest_user_content messages) content))
            ∷ []
    pub client : w'.gateway.client ≡ (
        if used
        then w.gateway.client
        else set_cached_completion e.redis e.json version request.model
            (hash_embedding_stub e.sha256 e.lower request.messages)
            (e.model_dump result)
            (e.vector_json (vector_of e at request (latest_user_content messages)))
            given.cached_at
            w.gateway.client)

  module _ (w : World e f) (healthy : IsHealthy tools) (alone : IsAlone given)
      (stored : IsStored grader) (ready : is_initialized w.gateway.client ≡ true)
      (chained : IsChained tools w.ledger) where
    audited :
        (entry : Entry e.F)
        → let ledger' =
            record_audit_log tools entry
              (is_initialized w.gateway.client)
              given.rounds
              given.others
              w.ledger in
          ((row : AuditRow e.F) × (ledger'.rows ≡ w.ledger.rows ++ row ∷ []) × (row.entry ≡ entry))
          × IsChained tools ledger'
    audited entry =
        let is =
          record-alone tools healthy entry given.rounds given.others w.ledger alone.first
            alone.nothing in
        rw ready (
          (next_row tools entry w.ledger, ap (λ (l : Ledger e.F). l.rows) is, refl),
          rw is (next-IsChained tools healthy entry w.ledger chained),
        )

    abbrev client_after : Text → Bool → Client e.redis
    client_after version used =
        if used
        then w.gateway.client
        else set_cached_completion e.redis e.json version request.model
            (hash_embedding_stub e.sha256 e.lower request.messages) (e.model_dump result)
            (e.vector_json (vector_of e at request (latest_user_content messages))) given.cached_at
            w.gateway.client

    abbrev after_fresh : Text → Bool → e.F → World e f
    after_fresh version used score =
        run_tasks tools grader given (fresh_tasks e at trace_id request version used score result) w

    -- The audit and the evaluation; the cache write changes neither table.
    recorded :
        (version : Text) (used : Bool) (score : e.F) (is_valid : Bool) (w' : World e f)
        → validate_schema grader content none ≡ some is_valid
        → w'.ledger ≡ (after_fresh version true score).ledger
        → w'.evals ≡ (after_fresh version true score).evals
        → w'.gateway.client ≡ client_after version used
        → IsRecorded version used w w'
    unfolding run_tasks
    recorded version used score is_valid w' v ledger_is evals_is client_is =
        let ((row, rows, is), linked) = audited _ in
        record {
          row = row;
          rows = ap (λ (l : Ledger e.F). l.rows) ledger_is ∙ rows;
          of_request = rw is (refl, refl, refl, refl);
          chained = rw ledger_is linked;
          is_valid = is_valid;
          validated = v;
          evals =
              evals_is
              ∙ evaluate-row_with grader trace_id (latest_user_content messages) content none false
                  none is_valid w.evals stored v;
          client = client_is;
        }

    after_fresh-IsRecorded :
        (version : Text) (used : Bool) (score : e.F) (is_valid : Bool)
        → validate_schema grader content none ≡ some is_valid
        → IsRecorded version used w (after_fresh version used score)
    unfolding run_tasks
    after_fresh-IsRecorded version true score is_valid v =
        recorded version true score is_valid (after_fresh version true score) v refl refl refl
    after_fresh-IsRecorded version false score is_valid v =
        recorded version false score is_valid (after_fresh version false score) v refl refl refl

    scheduled-IsRecorded :
        (tasks : List (Task e)) (version : Text) (used : Bool) (score : e.F) (is_valid : Bool)
        → tasks ≡ fresh_tasks e at trace_id request version used score result
        → validate_schema grader content none ≡ some is_valid
        → IsRecorded version used w (run_tasks tools grader given tasks w)
    scheduled-IsRecorded tasks version used score is_valid h v =
        rw h (after_fresh-IsRecorded version used score is_valid v)

-- A request that completes, once the background tasks that it has scheduled have run: either nothing
-- was sent to a provider for it and no metrics row stored, as for an answer from the cache, and then
-- the tasks change nothing; or its response was made from a provider's, and then the audit log has
-- exactly one row more, of this request and this response, and is still one chain, the table of
-- evaluation results has exactly one row more, of the same trace id, with the validator's answer and
-- the judge's grade, and the response is written to the cache unless the fallback gave it. No other
-- call of the audit log runs meanwhile and the first round of its lock commits, digests are not
-- empty, rows are inserted, Redis is initialized, no task was scheduled before, the audit log is one
-- chain to begin with, and the response's text does not make the validator raise.
pub chat_completions-IsRecorded :
    {e : Externals} (tools : Tools e.F) {f : Floats} (grader : Grader f) (given : Afterwards e.F)
    (at : Moments e) (trace_id : Text) (request : ChatCompletionRequest e.F) (headers : Headers)
    (g : Gateway e) (result : ChatCompletionResponse) (w : World e f) (is_valid : Bool)
    → (chat_completions e at trace_id request headers g).0 ≡ completed result
    → g.tasks ≡ []
    → w.gateway ≡ (chat_completions e at trace_id request headers g).1
    → IsHealthy tools
    → IsAlone given
    → IsStored grader
    → is_initialized w.gateway.client ≡ true
    → IsChained tools w.ledger
    → validate_schema grader (response_content result) none ≡ some is_valid
    → let g' = (chat_completions e at trace_id request headers g).1 in
      let w' = run_tasks tools grader given w.gateway.tasks w in
      (IsUntouched g g' × (w' ≡ w))
      ⊎ ((fresh : IsFresh e at trace_id request g g' result) × IsRecorded tools grader given at
            trace_id request result fresh.version fresh.used w w')
unfolding run_tasks
chat_completions-IsRecorded {e} tools grader given at trace_id request headers g result w is_valid
      done none_yet here healthy alone stored ready chained v =
    elim (chat_completions-accounted e at trace_id request headers g result done) [
      | inl same ↦
          let none_now : w.gateway.tasks ≡ [] =
            ap (λ (g : Gateway e). g.tasks) here ∙ same.tasks ∙ none_yet in
          inl (same, rw none_now refl)
      | inr fresh ↦ inr (
        fresh,
        scheduled-IsRecorded tools grader given at trace_id request result w healthy alone stored
            ready chained w.gateway.tasks fresh.version fresh.used fresh.score is_valid
            (ap (λ (g : Gateway e). g.tasks) here
              ∙ fresh.scheduled
              ∙ ap
                  (λ ts.
                    ts
                    ++ fresh_tasks e at trace_id request fresh.version fresh.used fresh.score
                        result)
                  none_yet)
            v,
      )
    ]
