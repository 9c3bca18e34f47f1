-- ===== src/Completions/Provider.antt =====
-- Which providers a request calls, and what it does to the breaker.

use llmgov.Base.{
  ◌≡◌, refl, inl, inr, ℕ, Bool, false, Option, none, some, List, [], ◌∷◌, Text, arith, Bool-cases,
}
use llmgov.Auth.{Headers}
use llmgov.Models.{ChatMessage, ChatCompletionRequest}
use llmgov.Breaker.{CircuitBreaker, allow_request, allow, step}
use llmgov.Breaker.Invariant.{IsValid, step-IsValid}
use llmgov.Breaker.Calls.{Outcome, settle}
use llmgov.Externals.{Externals, ModelResponse}
use llmgov.Completions.{Moments, Gateway}
use llmgov.Completions.Calls.{
  primary_call, start_embedding, call_primary, or_fallback, check_jailbreak, outcome_of,
}
use llmgov.Completions.Route.{ask, chat_completions}
use llmgov.Completions.Keeps.{Keeps, Keeps-pass, Keeps-read, Keeps-bind}
use llmgov.Completions.Closing.{finish-SameCalls}
use llmgov.Completions.Whole.{chat_completions-keeps}

allow_request-IsValid : (now : ℕ) (b : CircuitBreaker) → IsValid b → IsValid (allow_request now b).1
unfolding step
allow_request-IsValid now b v = step-IsValid b (allow now) v

settle-IsValid : (o : Outcome) (now : ℕ) (b : CircuitBreaker) → IsValid b → IsValid (settle o now b)
unfolding settle
settle-IsValid o now b v = ground arith

settle_released :
    (o : Outcome) (now : ℕ) (b : CircuitBreaker) → (settle o now b).probe_in_flight ≡ false
unfolding settle
settle_released o now b = ground arith

refused_same :
    (now : ℕ) (b : CircuitBreaker) → (allow_request now b).0 ≡ false → (allow_request now b).1 ≡ b
unfolding allow_request
refused_same now b h = ground arith

-- A breaker that meets its invariant, with what is asked of its mark of a probe.
record IsFit (P : Bool → Type 0) {e : Externals} (g : Gateway e) : Type 0 where
  valid : IsValid g.breaker
  mark : P g.breaker.probe_in_flight

module _ (P : Bool → Type 0) (unmarked : P false) (e : Externals) (at : Moments e) (trace_id : Text)
    (request : ChatCompletionRequest e.F) where
  start_embedding-IsFit : (text : Text) → Keeps (IsFit P) (start_embedding e at request text)
  unfolding start_embedding
  start_embedding-IsFit text = record { at = λ g h. record { valid = h.valid; mark = h.mark } }

  call_primary-IsFit :
      ((b : CircuitBreaker) → IsValid b → IsValid (at.meanwhile b))
      → (messages : List ChatMessage) → Keeps (IsFit P) (call_primary e at request messages)
  unfolding call_primary
  call_primary-IsFit others messages = record {
    at = λ g h.
        let o = outcome_of (e.acompletion (primary_call e at request messages)) in
        let admitted = (allow_request at.allowed_at g.breaker).1 in
        let v = allow_request-IsValid at.allowed_at g.breaker h.valid in
        elim (Bool-cases (allow_request at.allowed_at g.breaker).0) [
          | inl allowed ↦ rw allowed (record {
            valid = settle-IsValid o at.settled_at (at.meanwhile admitted) (others admitted v);
            mark = rw (settle_released o at.settled_at (at.meanwhile admitted)) unmarked;
          })
          | inr not_allowed ↦ rw not_allowed (record {
            valid = v;
            mark = rw (refused_same at.allowed_at g.breaker not_allowed) h.mark;
          })
        ];
  }

  or_fallback-IsFit :
      (messages : List ChatMessage) (answered : Option ModelResponse)
      → Keeps (IsFit P) (or_fallback e at request messages answered)
  unfolding or_fallback
  or_fallback-IsFit messages (some r) = Keeps-read _
  or_fallback-IsFit messages none = record { at = λ g h. record { valid = h.valid; mark = h.mark } }

  check_jailbreak-IsFit :
      (text : Text) (vector : List e.F) → Keeps (IsFit P) (check_jailbreak e at request text vector)
  unfolding check_jailbreak
  check_jailbreak-IsFit text [] = Keeps-read _
  check_jailbreak-IsFit text (x ∷ xs) = Keeps-read _

  ask-IsFit :
      ((b : CircuitBreaker) → IsValid b → IsValid (at.meanwhile b))
      → Keeps (IsFit P) (ask e at trace_id request)
  unfolding ask
  ask-IsFit others =
      search
        (
          Keeps-pass,
          Keeps-bind,
          start_embedding-IsFit,
          call_primary-IsFit others,
          or_fallback-IsFit,
          check_jailbreak-IsFit,
        )
        depth 12

  route-IsFit :
      (headers : Headers) (g : Gateway e)
      → ((b : CircuitBreaker) → IsValid b → IsValid (at.meanwhile b))
      → IsFit P g
      → IsFit P (chat_completions e at trace_id request headers g).1
  route-IsFit headers g others h =
      chat_completions-keeps e at trace_id request (IsFit P)
        (λ g g' same r. record { valid = rw same.breaker r.valid; mark = rw same.breaker r.mark })
        (ask-IsFit others)
        (λ admitted asked. record {
          at = λ g r.
              let same = finish-SameCalls e at trace_id request admitted asked g in
              record { valid = rw same.breaker r.valid; mark = rw same.breaker r.mark };
        })
        headers g h

-- However a request ends, and as long as what other requests do in the meantime keeps the breaker's
-- invariant: the route keeps the invariant, whether a probe is marked or not; and where the invariant
-- holds and no probe was marked before, it leaves none marked.
pub chat_completions-IsValid :
    (e : Externals) (at : Moments e) (trace_id : Text) (request : ChatCompletionRequest e.F)
    (headers : Headers) (g : Gateway e)
    → ((b : CircuitBreaker) → IsValid b → IsValid (at.meanwhile b))
    → IsValid g.breaker
    → let after = (chat_completions e at trace_id request headers g).1.breaker in
      IsValid after × (g.breaker.probe_in_flight ≡ false → after.probe_in_flight ≡ false)
chat_completions-IsValid e at trace_id request headers g others valid = (
  (route-IsFit (λ marked. Unit) tt e at trace_id request headers g others
      (record { valid = valid; mark = tt })).valid,
  λ unmarked.
      (route-IsFit (λ marked. marked ≡ false) refl e at trace_id request headers g others
        (record { valid = valid; mark = unmarked })).mark,
)
