-- ===== src/Completions/Guarded.antt =====
-- The route with the gateway's own redaction, that of app/core/pii.py.
use llmgov.Base.{◌≡◌, refl, false, [], ◌∷◌, List, arith}
use llmgov.Unicode.{Unicode}
use llmgov.Pii.{redact_pii}
use llmgov.Pii.Flag.{redact_pii-unflagged}
use llmgov.Models.{ChatMessage}
use llmgov.Externals.{Externals}
use llmgov.Completions.Calls.{redact_message, redact_messages}

-- The import of `redact_pii` in the route's file.
abbrev pub with_pii : Unicode → Externals → Externals
with_pii u e = record e { redact_pii = redact_pii u }

module _ (u : Unicode) (e : Externals) where
  redact_message-unflagged :
      (m : ChatMessage) → (redact_pii u m.content).1 ≡ false → redact_message (with_pii u e) m ≡ m
  redact_message-unflagged m h = rw (redact_pii-unflagged u m.content h) refl

  -- Where the route finds no personal data in a conversation with the gateway's own redaction, so
  -- that its audit record says that none was redacted, what it sends to the providers in its place is
  -- the conversation itself, unchanged.
  pub redact_messages-unflagged :
      (messages : List ChatMessage)
      → (redact_messages (with_pii u e) messages).1 ≡ false
      → (redact_messages (with_pii u e) messages).0 ≡ messages
  unfolding redact_messages
  redact_messages-unflagged [] h = refl
  redact_messages-unflagged (m ∷ rest) h =
      let first = redact_message-unflagged m (ground (arith, h)) in
      let later = redact_messages-unflagged rest (ground (arith, h)) in cc (first, later)
