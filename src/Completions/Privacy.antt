-- ===== src/Completions/Privacy.antt =====
-- Nothing leaves for a provider that redaction has not been through.
use llmgov.Base.{
  ◌≡◌, ◌≢◌, refl, ap, inl, inr, Bool, Option, none, some, List, [], ◌∷◌, ◌++◌, map, reverse, Text,
  text_eq, codes, Bool-cases, All, All-append, All-reverse, All-map,
}
use mathlib.Core.List.{reverse-append}
use llmgov.Auth.{Headers}
use llmgov.Models.{ChatMessage, ChatCompletionRequest}
use llmgov.Breaker.{allow_request}
use llmgov.Externals.{Externals, ModelResponse, embedding_call}
use llmgov.Completions.{Moments, Gateway, Sent, completion, embedding}
use llmgov.Completions.Calls.{
  redact_message, redact_messages, first_user, last_content, latest_user_content, primary_call,
  fallback_call, start_embedding, call_primary, or_fallback, check_jailbreak,
}
use llmgov.Completions.Route.{ask, finish, chat_completions}
use llmgov.Completions.Closing.{finish-SameCalls}
use llmgov.Completions.Whole.{chat_completions-keeps}
use llmgov.Completions.Keeps.{Keeps, Keeps-pass, Keeps-read, Keeps-bind}

redact_messages-map :
    (e : Externals) (ms : List ChatMessage) → (redact_messages e ms).0 ≡ map (redact_message e) ms
unfolding redact_messages
redact_messages-map e [] = refl
redact_messages-map e (m ∷ ms) = ap (λ rest. redact_message e m ∷ rest) (redact_messages-map e ms)

module _ (P : Text → Type 0) where
  first_user-keeps :
      (ms : List ChatMessage) (default : Text)
      → All (λ m. P m.content) ms
      → P default
      → P (first_user ms default)
  first_user-keeps [] default h d = d
  first_user-keeps (m ∷ ms) default h d = elim (Bool-cases (text_eq m.role (codes "user"))) [
    | inl here ↦ rw here h.0
    | inr further ↦ rw further (first_user-keeps ms default h.1 d)
  ]

  last_content-snoc :
      (ms : List ChatMessage) (m : ChatMessage)
      → All (λ m. P m.content) (ms ++ m ∷ [])
      → P (last_content (ms ++ m ∷ []))
  last_content-snoc [] m h = h.0
  last_content-snoc (x ∷ ms) m h = h.0

  -- What holds of every content holds of the latest user's.
  latest_user_content-keeps :
      (m : ChatMessage) (ms : List ChatMessage)
      → All (λ m. P m.content) (m ∷ ms)
      → P (latest_user_content (m ∷ ms))
  unfolding latest_user_content
  latest_user_content-keeps m ms h =
      let all = All-reverse (λ m. P m.content) (m ∷ ms) h in
      let shape : reverse (m ∷ ms) ≡ reverse ms ++ m ∷ [] = reverse-append (m ∷ []) ms in
      first_user-keeps (reverse (m ∷ ms)) _ all
        (rw shape (last_content-snoc (reverse ms) m (rw shape at all)))

module _ (e : Externals) (request : ChatCompletionRequest e.F) where
  -- A result of the redaction.
  abbrev pub IsRedacted : Text → Type 0
  IsRedacted text = (source : Text) × (text ≡ (e.redact_pii source).0)

  -- What a provider is sent: the request's messages, each content redacted, or redacted texts to
  -- embed.
  abbrev pub IsClean : Sent e.F → Type 0
  IsClean (completion call) = call.messages ≡ map (redact_message e) request.messages
  IsClean (embedding call) = All IsRedacted call.input

  record SendsClean (g : Gateway e) : Type 0 where
    clean : All IsClean g.sent

  IsRedacted-latest :
      (ms : List ChatMessage) → ms ≢ [] → IsRedacted (latest_user_content (redact_messages e ms).0)
  IsRedacted-latest [] h = absurd (h refl)
  IsRedacted-latest (m ∷ ms) h = rw redact_messages-map (
      latest_user_content-keeps IsRedacted (redact_message e m) (map (redact_message e) ms)
        (All-map (λ m. IsRedacted m.content) (redact_message e) (m ∷ ms) (λ m. (m.content, refl))))

  more-IsClean :
      (g : Gateway e) (new : Sent e.F)
      → SendsClean g
      → IsClean new
      → All IsClean (g.sent ++ new ∷ [])
  more-IsClean g new h c = All-append IsClean g.sent (new ∷ []) h.clean (c, tt)

module _ (e : Externals) (at : Moments e) (trace_id : Text)
    (request : ChatCompletionRequest e.F) where
  start_embedding-SendsClean :
      (text : Text)
      → IsRedacted e request text
      → Keeps (SendsClean e request) (start_embedding e at request text)
  unfolding start_embedding embedding_call
  start_embedding-SendsClean text h = record {
    at = λ g c. record {
      clean = more-IsClean e request g (embedding (embedding_call text)) c (h, tt);
    };
  }

  module _ (messages : List ChatMessage)
      (m : messages ≡ map (redact_message e) request.messages) where
    call_primary-SendsClean : Keeps (SendsClean e request) (call_primary e at request messages)
    unfolding call_primary
    call_primary-SendsClean = record {
      at = λ g c. elim (Bool-cases (allow_request at.allowed_at g.breaker).0) [
        | inl allowed ↦ rw allowed (record {
          clean = more-IsClean e request g (completion (primary_call e at request messages)) c m;
        })
        | inr not_allowed ↦ rw not_allowed (record { clean = c.clean })
      ];
    }

    or_fallback-SendsClean :
        (answered : Option ModelResponse)
        → Keeps (SendsClean e request) (or_fallback e at request messages answered)
    unfolding or_fallback
    or_fallback-SendsClean (some r) = Keeps-read _
    or_fallback-SendsClean none = record {
      at = λ g c. record {
        clean = more-IsClean e request g (completion (fallback_call e at request messages)) c m;
      };
    }

  check_jailbreak-SendsClean :
      (text : Text) (vector : List e.F)
      → Keeps (SendsClean e request) (check_jailbreak e at request text vector)
  unfolding check_jailbreak
  check_jailbreak-SendsClean text [] = Keeps-read _
  check_jailbreak-SendsClean text (x ∷ xs) = Keeps-read _

  ask-SendsClean : request.messages ≢ [] → Keeps (SendsClean e request) (ask e at trace_id request)
  unfolding ask
  ask-SendsClean h =
      search
        (
          Keeps-pass,
          Keeps-bind,
          IsRedacted-latest e request request.messages h,
          redact_messages-map e request.messages,
          start_embedding-SendsClean,
          call_primary-SendsClean,
          or_fallback-SendsClean,
          check_jailbreak-SendsClean,
        )
        depth 12

  finish-SendsClean :
      (admitted : Text × Text) (asked : (ModelResponse × Bool) × (e.F × Bool))
      → Keeps (SendsClean e request) (finish e at trace_id request admitted asked)
  finish-SendsClean admitted asked = record {
    at = λ g c. record {
      clean = rw (finish-SameCalls e at trace_id request admitted asked g).sent c.clean;
    };
  }

-- Whatever the route does with a request that has messages, each completion call that it sends to
-- the primary provider or the fallback has the request's messages with every content redacted, and
-- each text that it sends to be embedded is a result of the redaction. (The reference prompts that
-- the jailbreak check embeds are fixed, and not counted here.)
pub chat_completions-IsClean :
    (e : Externals) (at : Moments e) (trace_id : Text) (request : ChatCompletionRequest e.F)
    (headers : Headers) (g : Gateway e)
    → request.messages ≢ []
    → All (IsClean e request) g.sent
    → All (IsClean e request) (chat_completions e at trace_id request headers g).1.sent
chat_completions-IsClean e at trace_id request headers g h c =
    (chat_completions-keeps e at trace_id request (SendsClean e request)
      (λ g g' same c. record { clean = rw same.sent c.clean })
      (ask-SendsClean e at trace_id request h) (finish-SendsClean e at trace_id request) headers g
      (record { clean = c })).clean
