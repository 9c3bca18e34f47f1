-- ===== src/Completions/Fresh.antt =====
-- What a fresh response leaves behind it: who gave it, and the tasks it schedules.
use llmgov.Base.{
  ◌≡◌, ◌≢◌, refl, ap, sym, ◌∙◌, inl, inr, Bool, true, false, List, [], ◌∷◌, ◌++◌, Text, arith,
  Option-cases, ◌⊎◌, if◌then◌else◌,
}
use llmgov.Models.{ChatMessage, ChatCompletionRequest, ChatCompletionResponse}
use llmgov.Cache.{hash_embedding_stub}
use llmgov.Breaker.{allow_request}
use llmgov.Externals.{Externals, ModelResponse, response, provider_error}
use llmgov.Completions.{
  next, stop, End, completed, raised, Failure, Moments, Gateway, Task, audit, evaluate, write_cache,
  ended,
}
use llmgov.Completions.Calls.{
  redact_messages, latest_user_content, primary_call, fallback_call, start_embedding, call_primary,
  or_fallback, check_jailbreak, vector_of,
}
use llmgov.Completions.Finish.{
  to_response, response_content, metrics_row, cache_tasks, write_metrics, add_tasks,
}
use llmgov.Completions.Route.{ask, finish, respond}
use llmgov.Completions.Keeps.{Step-cases}
use llmgov.Completions.Admission.{IsUntouched}
use llmgov.Completions.Records.{SameRecords, ask-SameRecords}

completed_inj : (r r' : ChatCompletionResponse) → completed r ≡ completed r' → r ≡ r'
completed_inj r r' h = cc

completed-ne-raised : (r : ChatCompletionResponse) (f : Failure) → completed r ≢ raised f
completed-ne-raised r f h = cc

abbrev IsCompleted : End → Type 0
IsCompleted (completed result) = Unit
IsCompleted _ = ⊥

module _ (e : Externals) (at : Moments e) (trace_id : Text)
    (request : ChatCompletionRequest e.F) where
  abbrev messages : List ChatMessage
  messages = (redact_messages e request.messages).0

  -- Who answered a request that went on: the primary provider, allowed by the breaker, or the
  -- fallback.
  ask_answered :
      (g : Gateway e) (x : ModelResponse) (used : Bool) (judged : e.F × Bool)
      → (ask e at trace_id request g).0 ≡ next ((x, used), judged)
      → ((used ≡ false)
          × ((allow_request at.allowed_at g.breaker).0 ≡ true)
          × (e.acompletion (primary_call e at request messages) ≡ response x))
        ⊎ ((used ≡ true)
            × (((allow_request at.allowed_at g.breaker).0 ≡ false)
                ⊎ (e.acompletion (primary_call e at request messages) ≡ provider_error))
            × (e.acompletion (fallback_call e at request messages) ≡ response x))
  unfolding ask start_embedding call_primary or_fallback check_jailbreak
  ask_answered g x used judged h = ground arith

  ask-not-IsCompleted :
      (g : Gateway e) (end : End) → (ask e at trace_id request g).0 ≡ stop end → ¬ IsCompleted end
  unfolding ask start_embedding call_primary or_fallback check_jailbreak
  ask-not-IsCompleted g end h c = ground arith

  -- The records that a fresh response leaves behind it.
  finish_records :
      (app_id version : Text) (x : ModelResponse) (used : Bool) (score : e.F) (flagged : Bool)
      (g : Gateway e)
      → let result = to_response x request.model trace_id at.created_at in
        let content = response_content result in
        ((finish e at trace_id request (app_id, version) ((x, used), (score, flagged)) g).0
          ≡ next result)
        × ((finish e at trace_id request (app_id, version) ((x, used), (score, flagged)) g).1.tasks
            ≡ g.tasks
              ++ audit trace_id
                  (e.messages_json messages)
                  content
                  (redact_messages e request.messages).1
                  (e.classify_toxicity content).0
                  score
                ∷ evaluate trace_id (latest_user_content messages) content
                ∷ (if used
                    then []
                    else write_cache version request.model
                        (hash_embedding_stub e.sha256 e.lower request.messages)
                        (e.model_dump result)
                        (vector_of e at request (latest_user_content messages))
                      ∷ []))
  unfolding finish write_metrics add_tasks cache_tasks
  finish_records app_id version x used score flagged g =
      let row =
        metrics_row e at trace_id app_id request
          (to_response x request.model trace_id at.created_at) used in
      (
        refl,
        elim (Option-cases (e.insert_metrics row)) [
          | inl failed ↦ rw failed refl
          | inr (stored, kept) ↦ rw kept refl
        ],
      )

  -- The tasks of a fresh response: the audit of the redacted conversation and of the response's
  -- text, its evaluation, and the cache write where the fallback was not used.
  abbrev pub fresh_tasks : Text → Bool → e.F → ChatCompletionResponse → List (Task e)
  fresh_tasks version used score result =
      let content = response_content result in
      audit trace_id (e.messages_json messages) content (redact_messages e request.messages).1
        (e.classify_toxicity content).0 score
      ∷ evaluate trace_id (latest_user_content messages) content
      ∷ (if used
          then []
          else write_cache version request.model
              (hash_embedding_stub e.sha256 e.lower request.messages) (e.model_dump result)
              (vector_of e at request (latest_user_content messages))
            ∷ [])

  -- A response that comes from a provider: which one, and the tasks that it leaves.
  pub record IsFresh (g g' : Gateway e) (result : ChatCompletionResponse) : Type 0 where
    pub version : Text
    pub score : e.F
    pub used : Bool
    pub x : ModelResponse
    pub made : result ≡ to_response x request.model trace_id at.created_at
    pub scheduled : g'.tasks ≡ g.tasks ++ fresh_tasks version used score result
    pub answered :
        ((used ≡ false)
          × ((allow_request at.allowed_at g.breaker).0 ≡ true)
          × (e.acompletion (primary_call e at request messages) ≡ response x))
        ⊎ ((used ≡ true)
            × (((allow_request at.allowed_at g.breaker).0 ≡ false)
                ⊎ (e.acompletion (primary_call e at request messages) ≡ provider_error))
            × (e.acompletion (fallback_call e at request messages) ≡ response x))

  pub respond-IsFresh :
      (admitted : Text × Text) (g : Gateway e) (result : ChatCompletionResponse)
      → (respond e at trace_id request admitted g).0 ≡ completed result
      → IsFresh g (respond e at trace_id request admitted g).1 result
  unfolding respond
  respond-IsFresh (app_id, version) g result h = elim (Step-cases (ask e at trace_id request g).0) [
    | inl (((x, used), (score, flagged)), a) ↦
        let g' = (ask e at trace_id request g).1 in
        let (next_is, tasks_are) = finish_records app_id version x used score flagged g' in
        let same =
          (ask-SameRecords e at trace_id request g).at g (record { rows = refl; tasks = refl }) in
        let h' : ended
              (finish e at trace_id request (app_id, version) ((x, used), (score, flagged)) g').0
            ≡ completed result =
          rw a at h in
        let result_is : result ≡ to_response x request.model trace_id at.created_at =
          completed_inj _ _ (sym h' ∙ ap ended next_is) in
        rw a (record {
          version = version;
          score = score;
          used = used;
          x = x;
          made = result_is;
          scheduled = rw result_is (
              tasks_are
              ∙ ap
                  (λ ts.
                    ts
                    ++ fresh_tasks version used score
                        (to_response x request.model trace_id at.created_at))
                  same.tasks);
          answered = ask_answered g x used (score, flagged) a;
        })
    | inr (end, a) ↦
        absurd
          (ask-not-IsCompleted g end a (rw (let e : end ≡ completed result = rw a at h in e) tt))
  ]

  pub respond-raised :
      (admitted : Text × Text) (g : Gateway e) (failure : Failure)
      → (respond e at trace_id request admitted g).0 ≡ raised failure
      → SameRecords g (respond e at trace_id request admitted g).1
  unfolding respond
  respond-raised (app_id, version) g failure h = elim (Step-cases (ask e at trace_id request g).0) [
    | inl (((x, used), (score, flagged)), a) ↦
        let g' = (ask e at trace_id request g).1 in
        let next_is = (finish_records app_id version x used score flagged g').0 in
        let h' : ended
              (finish e at trace_id request (app_id, version) ((x, used), (score, flagged)) g').0
            ≡ raised failure =
          rw a at h in
        absurd (completed-ne-raised _ _ (sym (ap ended next_is) ∙ h'))
    | inr (end, a) ↦
        rw a ((ask-SameRecords e at trace_id request g).at g (record { rows = refl; tasks = refl }))
  ]

  pub earlier-IsFresh :
      (g g' g'' : Gateway e) (result : ChatCompletionResponse)
      → IsUntouched g g'
      → IsFresh g' g'' result
      → IsFresh g g'' result
  earlier-IsFresh g g' g'' result same f = record {
    version = f.version;
    score = f.score;
    used = f.used;
    x = f.x;
    made = f.made;
    scheduled =
        f.scheduled ∙ ap (λ ts. ts ++ fresh_tasks f.version f.used f.score result) same.tasks;
    answered = rw same.breaker at f.answered;
  }
