-- ===== src/Completions/Records.antt =====
-- Calling the providers stores and schedules nothing.
use llmgov.Base.{◌≡◌, inl, inr, Option, none, some, List, [], ◌∷◌, Text, Bool-cases}
use llmgov.Models.{ChatMessage, ChatCompletionRequest}
use llmgov.Breaker.{allow_request}
use llmgov.Externals.{Externals, ModelResponse}
use llmgov.Completions.{Moments, Gateway}
use llmgov.Completions.Calls.{start_embedding, call_primary, or_fallback, check_jailbreak}
use llmgov.Completions.Route.{ask}
use llmgov.Completions.Keeps.{Keeps, Keeps-pass, Keeps-read, Keeps-bind}

-- The rows and the tasks are as they were in `g`.
pub record SameRecords {e : Externals} (g g' : Gateway e) : Type 0 where
  pub rows : g'.rows ≡ g.rows
  pub tasks : g'.tasks ≡ g.tasks

module _ (e : Externals) (at : Moments e) (trace_id : Text) (request : ChatCompletionRequest e.F)
    (g : Gateway e) where
  start_embedding-SameRecords :
      (text : Text) → Keeps (SameRecords g) (start_embedding e at request text)
  unfolding start_embedding
  start_embedding-SameRecords text = record {
    at = λ g' h. record { rows = h.rows; tasks = h.tasks };
  }

  call_primary-SameRecords :
      (messages : List ChatMessage) → Keeps (SameRecords g) (call_primary e at request messages)
  unfolding call_primary
  call_primary-SameRecords messages = record {
    at = λ g' h. elim (Bool-cases (allow_request at.allowed_at g'.breaker).0) [
      | inl allowed ↦ rw allowed (record { rows = h.rows; tasks = h.tasks })
      | inr not_allowed ↦ rw not_allowed (record { rows = h.rows; tasks = h.tasks })
    ];
  }

  or_fallback-SameRecords :
      (messages : List ChatMessage) (answered : Option ModelResponse)
      → Keeps (SameRecords g) (or_fallback e at request messages answered)
  unfolding or_fallback
  or_fallback-SameRecords messages (some r) = Keeps-read _
  or_fallback-SameRecords messages none = record {
    at = λ g' h. record { rows = h.rows; tasks = h.tasks };
  }

  check_jailbreak-SameRecords :
      (text : Text) (vector : List e.F)
      → Keeps (SameRecords g) (check_jailbreak e at request text vector)
  unfolding check_jailbreak
  check_jailbreak-SameRecords text [] = Keeps-read _
  check_jailbreak-SameRecords text (x ∷ xs) = Keeps-read _

  pub ask-SameRecords : Keeps (SameRecords g) (ask e at trace_id request)
  unfolding ask
  ask-SameRecords =
      search
        (
          Keeps-pass, Keeps-bind, start_embedding-SameRecords, call_primary-SameRecords,
          or_fallback-SameRecords, check_jailbreak-SameRecords,
        )
        depth 12
