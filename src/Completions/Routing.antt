-- ===== src/Completions/Routing.antt =====
-- Which providers a request calls, in which order, and what it answers.
use mathlib.Core.List.{append_assoc, append-nil}
use llmgov.Base.{
  ◌≡◌, refl, ap, ◌∙◌, inl, inr, Bool, true, false, Option, none, some, List, [], ◌∷◌, ◌++◌, Text,
  arith, Bool-cases,
}
use llmgov.Auth.{Headers}
use llmgov.Models.{ChatMessage, ChatCompletionRequest}
use llmgov.Breaker.{allow_request}
use llmgov.Externals.{
  Externals, Completion, ModelResponse, response, provider_error, other_error, embedding_call,
}
use llmgov.Completions.{
  M, Step, next, stop, raised, fallback_failed, primary_failed, Moments, Gateway, Sent, completion,
  embedding, continue, pass, ◌>>=◌,
}
use llmgov.Completions.Calls.{
  redact_messages, latest_user_content, primary_call, fallback_call, start_embedding, call_primary,
  or_fallback, check_jailbreak, vector_of,
}
use llmgov.Completions.Route.{admit, ask, finish, respond, chat_completions, chat_completions-next}
use llmgov.Completions.Keeps.{Keeps, Keeps-pass, Keeps-read, Keeps-bind, continue-Keeps}
use llmgov.Completions.Admission.{admit-IsUntouched}
use llmgov.Completions.Closing.{finish-SameCalls}

module _ (e : Externals) (at : Moments e) (trace_id : Text)
    (request : ChatCompletionRequest e.F) where
  abbrev messages : List ChatMessage
  messages = (redact_messages e request.messages).0

  abbrev text : Text
  text = latest_user_content messages

  abbrev primary : Sent e.F
  primary = completion (primary_call e at request messages)

  abbrev fallback : Sent e.F
  fallback = completion (fallback_call e at request messages)

  -- The calls that a request makes, by the breaker's answer and the primary provider's: the
  -- fallback is called exactly where the breaker refuses or the primary fails with a listed error.
  abbrev pub planned : Bool → Completion → List (Sent e.F)
  planned false _ = fallback ∷ []
  planned true (response r) = primary ∷ []
  planned true provider_error = primary ∷ fallback ∷ []
  planned true other_error = primary ∷ []

  abbrev allowed : Gateway e → Bool
  allowed g = (allow_request at.allowed_at g.breaker).0

  abbrev from_primary : Completion
  from_primary = e.acompletion (primary_call e at request messages)

  check_jailbreak_same :
      (t : Text) (vector : List e.F) (g : Gateway e)
      → (check_jailbreak e at request t vector g).1 ≡ g
  unfolding check_jailbreak
  check_jailbreak_same t [] g = refl
  check_jailbreak_same t (x ∷ xs) g = refl

  -- What the primary call goes on with.
  abbrev answered : Bool → Completion → Step (Option ModelResponse)
  answered false _ = next none
  answered true (response r) = next (some r)
  answered true provider_error = next none
  answered true other_error = stop (raised primary_failed)

  abbrev asked_primary : Bool → List (Sent e.F)
  asked_primary true = primary ∷ []
  asked_primary false = []

  call_primary_lem :
      (g : Gateway e)
      → ((call_primary e at request messages g).0 ≡ answered (allowed g) from_primary)
        × ((call_primary e at request messages g).1.sent ≡ g.sent ++ asked_primary (allowed g))
  unfolding call_primary
  call_primary_lem g = elim (Bool-cases (allowed g)) [
    | inl yes_allowed ↦ rw yes_allowed (ground arith, refl)
    | inr no_allowed ↦ rw no_allowed (refl, ground (arith, append-nil g.sent))
  ]

  -- What the fallback goes on with.
  abbrev second : Completion → Step (ModelResponse × Bool)
  second (response r) = next (r, true)
  second _ = stop (raised fallback_failed)

  or_fallback-none :
      (g : Gateway e)
      → ((or_fallback e at request messages none g).0
          ≡ second (e.acompletion (fallback_call e at request messages)))
        × ((or_fallback e at request messages none g).1.sent ≡ g.sent ++ fallback ∷ [])
  unfolding or_fallback
  or_fallback-none g = (ground arith, refl)

  or_fallback-some :
      (r : ModelResponse) (g : Gateway e)
      → or_fallback e at request messages (some r) g ≡ (next (r, false), g)
  unfolding or_fallback
  or_fallback-some r g = refl

  abbrev embedded : Gateway e → Gateway e
  embedded g = record g { sent = g.sent ++ embedding (embedding_call text) ∷ [] }

  start_embedding_lem :
      (g : Gateway e) → start_embedding e at request text g ≡ (next tt, embedded g)
  unfolding start_embedding
  start_embedding_lem g = refl

  -- The end of `ask`, over a response.
  abbrev judge : ModelResponse × Bool → M e ((ModelResponse × Bool) × (e.F × Bool))
  judge used = do
    jailbreak ← check_jailbreak e at request text (vector_of e at request text)
    pass (used, jailbreak)

  module _ (s : List (Sent e.F)) where
    abbrev SentIs : Gateway e → Type 0
    SentIs g = g.sent ≡ s

    check_jailbreak-SentIs :
        (t : Text) (vector : List e.F) → Keeps SentIs (check_jailbreak e at request t vector)
    unfolding check_jailbreak
    check_jailbreak-SentIs t [] = Keeps-read _
    check_jailbreak-SentIs t (x ∷ xs) = Keeps-read _

    judge-SentIs : (used : ModelResponse × Bool) → Keeps SentIs (judge used)
    judge-SentIs used =
        Keeps-bind _ _ (check_jailbreak-SentIs text (vector_of e at request text))
          (λ jailbreak. Keeps-pass (used, jailbreak))

  -- The fallback is asked where no response has come.
  abbrev asked_fallback : Step (Option ModelResponse) → List (Sent e.F)
  asked_fallback (next none) = fallback ∷ []
  asked_fallback (next (some r)) = []
  asked_fallback (stop end) = []

  after_primary :
      (s : Step (Option ModelResponse)) (g : Gateway e)
      → (continue s (λ a. or_fallback e at request messages a >>= judge) g).1.sent
        ≡ g.sent ++ asked_fallback s
  after_primary (next none) g =
      continue-Keeps (or_fallback e at request messages none g).0 judge
        (λ used _. judge-SentIs (g.sent ++ fallback ∷ []) used)
        (or_fallback e at request messages none g).1 (or_fallback-none g).1
  after_primary (next (some r)) g =
      rw (or_fallback-some r g, append-nil g.sent) ((judge-SentIs g.sent (r, false)).at g refl)
  after_primary (stop end) g = rw (append-nil g.sent)

  planned_lem :
      (b : Bool) (c : Completion) → asked_primary b ++ asked_fallback (answered b c) ≡ planned b c
  planned_lem false c = refl
  planned_lem true (response r) = refl
  planned_lem true provider_error = refl
  planned_lem true other_error = refl

  ask_sent :
      (g : Gateway e)
      → (ask e at trace_id request g).1.sent
        ≡ g.sent ++ embedding (embedding_call text) ∷ planned (allowed g) from_primary
  unfolding ask
  ask_sent g =
      let call = call_primary e at request messages (embedded g) in
      let (step_is, sent_is) = call_primary_lem (embedded g) in
      rw (start_embedding_lem g) (
        after_primary call.0 call.1
        ∙ ap (λ s. call.1.sent ++ asked_fallback s) step_is
        ∙ ap (λ s. s ++ asked_fallback (answered (allowed g) from_primary)) sent_is
        ∙ simp (append_assoc, planned_lem))

  finish_sent :
      (admitted : Text × Text) (g : Gateway e)
      → (respond e at trace_id request admitted g).1.sent ≡ (ask e at trace_id request g).1.sent
  unfolding respond
  finish_sent admitted g =
      continue-Keeps {P = SentIs (ask e at trace_id request g).1.sent}
        (ask e at trace_id request g).0 (finish e at trace_id request admitted)
        (λ asked _. record {
          at = λ g' h. (finish-SameCalls e at trace_id request admitted asked g').sent ∙ h;
        })
        (ask e at trace_id request g).1 refl

-- A request that passes the checks and misses the cache sends its latest user's text to be embedded
-- and then calls: the primary provider and nothing else where the breaker allows it and it responds
-- or fails with an unlisted error; the primary and then the fallback where it fails with a listed
-- error; the fallback alone where the breaker refuses.
pub chat_completions-planned :
    (e : Externals) (at : Moments e) (trace_id : Text) (request : ChatCompletionRequest e.F)
    (headers : Headers) (g : Gateway e) (admitted : Text × Text)
    → (admit e at trace_id request headers g).0 ≡ next admitted
    → let messages = (redact_messages e request.messages).0 in
      (chat_completions e at trace_id request headers g).1.sent
      ≡ g.sent
        ++ embedding (embedding_call (latest_user_content messages))
          ∷ planned e at trace_id request
              (allow_request at.allowed_at g.breaker).0
              (e.acompletion (primary_call e at request messages))
chat_completions-planned e at trace_id request headers g admitted h =
    let same = admit-IsUntouched e at trace_id request headers g in
    let g' = (admit e at trace_id request headers g).1 in
    rw (chat_completions-next e at trace_id request headers g admitted h) (
      finish_sent e at trace_id request admitted g'
      ∙ ask_sent e at trace_id request g'
      ∙ rw same.sent (
          ap
            (λ b.
              g.sent
              ++ embedding (embedding_call (text e at trace_id request))
                ∷ planned e at trace_id request (allow_request at.allowed_at b).0
                    (from_primary e at trace_id request))
            same.breaker))
