-- ===== src/Completions/Limited.antt =====
-- What a request does to the Redis client: nothing but the count of its check.
use llmgov.Base.{
  ◌≡◌, refl, ap, ◌∙◌, ◌⊎◌, inl, inr, Bool, false, Option, none, some, List, [], ◌∷◌, Text,
  Bool-cases, arith,
}
use llmgov.Auth.{
  Headers, Identity, app, invalid_key, auth_unavailable, authenticate_api_key, raw_key_of,
}
use llmgov.RateLimit.{Check, answer, crashed, check_rate_limit}
use llmgov.Redis.{Client}
use llmgov.Models.{ChatMessage, ChatCompletionRequest}
use llmgov.Breaker.{allow_request}
use llmgov.Externals.{Externals, ModelResponse}
use llmgov.Completions.{
  stop, End, completed, refused, raised, rate_limit_exceeded, rate_limiter_crashed, Moments,
  Gateway,
}
use llmgov.Completions.Checks.{
  authenticate, limit_rate, reject_streaming, select_prompt, read_cache,
}
use llmgov.Completions.Calls.{start_embedding, call_primary, or_fallback, check_jailbreak}
use llmgov.Completions.Route.{
  admit, ask, finish, respond, chat_completions, chat_completions-stop, chat_completions-next,
}
use llmgov.Completions.Keeps.{Keeps, Keeps-pass, Keeps-read, Keeps-bind, Step-cases}
use llmgov.Completions.Closing.{finish-SameCalls}

abbrev pub IsCompleted : End → Type 0
IsCompleted (completed result) = Unit
IsCompleted _ = ⊥

pub record SameClient {e : Externals} (client : Client e.redis) (g : Gateway e) : Type 0 where
  pub same : g.client ≡ client

module _ (e : Externals) (at : Moments e) (trace_id : Text) (request : ChatCompletionRequest e.F)
    (client : Client e.redis) where
  start_embedding-SameClient :
      (text : Text) → Keeps (SameClient client) (start_embedding e at request text)
  unfolding start_embedding
  start_embedding-SameClient text = record { at = λ g h. record { same = h.same } }

  call_primary-SameClient :
      (messages : List ChatMessage) → Keeps (SameClient client) (call_primary e at request messages)
  unfolding call_primary
  call_primary-SameClient messages = record {
    at = λ g h. elim (Bool-cases (allow_request at.allowed_at g.breaker).0) [
      | inl allowed ↦ rw allowed (record { same = h.same })
      | inr not_allowed ↦ rw not_allowed (record { same = h.same })
    ];
  }

  or_fallback-SameClient :
      (messages : List ChatMessage) (answered : Option ModelResponse)
      → Keeps (SameClient client) (or_fallback e at request messages answered)
  unfolding or_fallback
  or_fallback-SameClient messages (some r) = Keeps-read _
  or_fallback-SameClient messages none = record { at = λ g h. record { same = h.same } }

  check_jailbreak-SameClient :
      (text : Text) (vector : List e.F)
      → Keeps (SameClient client) (check_jailbreak e at request text vector)
  unfolding check_jailbreak
  check_jailbreak-SameClient text [] = Keeps-read _
  check_jailbreak-SameClient text (x ∷ xs) = Keeps-read _

  finish-SameClient :
      (admitted : Text × Text) (asked : (ModelResponse × Bool) × (e.F × Bool))
      → Keeps (SameClient client) (finish e at trace_id request admitted asked)
  finish-SameClient admitted asked = record {
    at = λ g h. record {
      same = (finish-SameCalls e at trace_id request admitted asked g).client ∙ h.same;
    };
  }

  ask-SameClient : Keeps (SameClient client) (ask e at trace_id request)
  unfolding ask
  ask-SameClient =
      search
        (
          Keeps-pass, Keeps-bind, start_embedding-SameClient, call_primary-SameClient,
          or_fallback-SameClient, check_jailbreak-SameClient,
        )
        depth 12

  respond-SameClient :
      (admitted : Text × Text) (g : Gateway e)
      → SameClient client g
      → SameClient client (respond e at trace_id request admitted g).1
  unfolding respond
  respond-SameClient admitted g h =
      (Keeps-bind (ask e at trace_id request) (finish e at trace_id request admitted) ask-SameClient
          (finish-SameClient admitted)).at
        g h

module _ (e : Externals) (at : Moments e) (trace_id : Text) (request : ChatCompletionRequest e.F)
    (headers : Headers) (g : Gateway e) where
  abbrev pub identity : Identity
  identity = authenticate_api_key e.redis e.sha256 (raw_key_of headers) at.authenticated_at g.client

  -- The limiter's check of an application.
  abbrev pub checked : Text → Check × Client e.redis
  checked app_id = check_rate_limit e.redis app_id 60 60 at.rate_checked_at g.client

  abbrev pub client_after : Identity → Client e.redis
  client_after (app app_id) = (checked app_id).1
  client_after invalid_key = g.client
  client_after auth_unavailable = g.client

  admit-client_after : (admit e at trace_id request headers g).1.client ≡ client_after identity
  unfolding admit authenticate limit_rate reject_streaming select_prompt read_cache
  admit-client_after = ground arith

  -- The client after a request is that after its check, or as it was where there is no application.
  pub chat_completions-client_after :
      (chat_completions e at trace_id request headers g).1.client ≡ client_after identity
  chat_completions-client_after =
      let g' = (admit e at trace_id request headers g).1 in
      elim (Step-cases (admit e at trace_id request headers g).0) [
        | inl (admitted, a) ↦
            rw (chat_completions-next e at trace_id request headers g admitted a) (
              (respond-SameClient e at trace_id request g'.client admitted g'
                (record { same = refl })).same
              ∙ admit-client_after)
        | inr (end, a) ↦
            rw (chat_completions-stop e at trace_id request headers g end a) admit-client_after
      ]

  denied :
      (app_id : Text)
      → identity ≡ app app_id
      → ((checked app_id).0 ≡ answer false) ⊎ ((checked app_id).0 ≡ crashed)
      → (end : End) × ((admit e at trace_id request headers g).0 ≡ stop end) × ¬ IsCompleted end
  unfolding admit authenticate limit_rate
  denied app_id known (inl h) =
      (refused 429 rate_limit_exceeded trace_id, rw (known, h) refl, λ c. c)
  denied app_id known (inr h) = (raised rate_limiter_crashed, rw (known, h) refl, λ c. c)

  -- A request of an application is completed only where its check lets it through.
  pub denied-not-IsCompleted :
      (app_id : Text)
      → identity ≡ app app_id
      → ((checked app_id).0 ≡ answer false) ⊎ ((checked app_id).0 ≡ crashed)
      → ¬ IsCompleted (chat_completions e at trace_id request headers g).0
  denied-not-IsCompleted app_id known h c =
      let (end, a, not_completed) = denied app_id known h in
      not_completed
        (rw (ap (λ p. p.0) (chat_completions-stop e at trace_id request headers g end a)) at c)
