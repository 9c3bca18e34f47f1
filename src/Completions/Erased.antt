-- ===== src/Completions/Erased.antt =====
-- What the providers are sent with the gateway's own redaction.
use llmgov.Base.{◌≡◌, ◌≢◌, none, List, [], ◌∷◌, map, refl, ap, Text, All, All-map}
use llmgov.Unicode.{Unicode}
use llmgov.Pii.Patterns.{email_regex, ssn_regex}
use llmgov.Pii.Residue.{Free}
use llmgov.Pii.Erased.{AreBrackets, redact_pii-Free}
use llmgov.Auth.{Headers}
use llmgov.Models.{ChatMessage, ChatCompletionRequest}
use llmgov.Externals.{Externals}
use llmgov.Completions.{Sent, completion, embedding, Moments, Gateway}
use llmgov.Completions.Calls.{redact_message}
use llmgov.Completions.Route.{chat_completions}
use llmgov.Completions.Privacy.{IsRedacted, IsClean, chat_completions-IsClean}
use llmgov.Completions.Guarded.{with_pii}

roles_kept :
    (e : Externals) (ms : List ChatMessage)
    → map (λ (m : ChatMessage). m.role) (map (redact_message e) ms)
      ≡ map (λ (m : ChatMessage). m.role) ms
roles_kept e [] = refl
roles_kept e (m ∷ ms) = ap (λ roles. m.role ∷ roles) (roles_kept e ms)

module _ (u : Unicode) where
  -- Nowhere in the text does the pattern for email addresses or that for social security numbers
  -- take anything.
  abbrev pub IsErased : Text → Type 0
  IsErased text = Free (email_regex u) none text × Free (ssn_regex u) none text

  -- The messages of a completion call have the request's roles, as they are, and contents in which
  -- the patterns take nothing.
  abbrev pub SendsErased : {F : Type 0} → ChatCompletionRequest F → Sent F → Type 0
  SendsErased request (completion call) =
      All (λ m. IsErased m.content) call.messages
      × (map (λ (m : ChatMessage). m.role) call.messages
          ≡ map (λ (m : ChatMessage). m.role) request.messages)
  SendsErased request (embedding call) = All IsErased call.input

  module _ (brackets : AreBrackets u) (e : Externals) (request : ChatCompletionRequest e.F) where
    redacted-IsErased :
        (texts : List Text) → All (IsRedacted (with_pii u e) request) texts → All IsErased texts
    redacted-IsErased [] a = tt
    redacted-IsErased (t ∷ texts) ((source, is), a) =
        (rw is (redact_pii-Free u source brackets), redacted-IsErased texts a)

    clean-SendsErased :
        (sent : List (Sent e.F))
        → All (IsClean (with_pii u e) request) sent
        → All (SendsErased request) sent
    clean-SendsErased [] a = tt
    clean-SendsErased (completion call ∷ sent) (is, a) = (
      (
        rw is (
            All-map (λ m. IsErased m.content) (redact_message (with_pii u e)) request.messages
              (λ m. redact_pii-Free u m.content brackets)),
        rw is (roles_kept (with_pii u e) request.messages),
      ),
      clean-SendsErased sent a,
    )
    clean-SendsErased (embedding call ∷ sent) (is, a) =
        (redacted-IsErased call.input is, clean-SendsErased sent a)

-- With the gateway's own redaction: of a request that has messages, to a gateway that has sent
-- nothing yet, no completion call to the primary provider or the fallback has a message with a
-- content, and no embedding call a text, in which the pattern for email addresses or that for social
-- security numbers takes anything anywhere. The roles of the messages of a
-- completion call are those of the request's messages, unredacted. Brackets are taken to be no word
-- characters and no digits.
pub chat_completions-SendsErased :
    (u : Unicode) (e : Externals) (at : Moments (with_pii u e)) (trace_id : Text)
    (request : ChatCompletionRequest e.F) (headers : Headers) (g : Gateway (with_pii u e))
    → AreBrackets u
    → request.messages ≢ []
    → g.sent ≡ []
    → All
        (SendsErased u request)
        (chat_completions (with_pii u e) at trace_id request headers g).1.sent
chat_completions-SendsErased u e at trace_id request headers g brackets full unsent =
    clean-SendsErased u brackets e request _
      (chat_completions-IsClean (with_pii u e) at trace_id request headers g full (rw unsent tt))
