-- ===== src/Completions.antt =====
-- app/api/completions.py: `chat_completions`, step by step in the order of the source.
-- A step takes the gateway's state and goes on with a value or ends the request; what it had
-- written stays written.
pub mod Keeps
pub mod Admission
pub mod Refusal
pub mod Privacy
pub mod Whole
pub mod Closing
pub mod Provider
pub mod Routing
pub mod Repeat
pub mod Records
pub mod Limited
pub mod Background
pub mod Recorded
pub mod Service
pub mod Guarded
pub mod Erased
pub mod Fresh
pub mod Accounting
pub mod Checks
pub mod Calls
pub mod Finish
pub mod Route
use llmgov.Base.{ℕ, Bool, Option, List, Text}
use llmgov.Redis.{Client}
use llmgov.Models.{ChatCompletionResponse}
use llmgov.Externals.{Externals, CompletionCall, EmbeddingCall, MetricsRow}
use llmgov.Breaker.{CircuitBreaker}

-- The `type` of an error reply that the route makes itself; its message is fixed by it.
pub data ErrorType : Type 0 where
  invalid_api_key service_unavailable rate_limit_exceeded : ErrorType

-- The exceptions that leave the route.
pub data Failure : Type 0 where
  rate_limiter_crashed streaming_unsupported registry_failed invalid_cached_payload primary_failed
        fallback_failed jailbreak_failed :
      Failure

-- How a request ends.
pub data End : Type 0 where
  completed : ChatCompletionResponse → End
  refused : ℕ → ErrorType → Text → End
  raised : Failure → End

-- What the route hands to a provider.
pub data Sent (F : Type 0) : Type 0 where
  completion : CompletionCall F → Sent F
  embedding : EmbeddingCall → Sent F

-- The background tasks that the route adds.
pub data Task (e : Externals) : Type 0 where
  audit :
      (trace_id sanitized_prompt raw_response : Text) (has_pii_redacted : Bool)
      (toxicity_score jailbreak_score : e.F)
      → Task e
  evaluate : (trace_id prompt response_text : Text) → Task e
  write_cache :
      (prompt_version model prompt_hash : Text) (payload : e.Payload) (vector : List e.F) → Task e

-- The shared objects of the process, and what this request has sent, stored and scheduled so far.
pub record Gateway (e : Externals) : Type 0 where
  pub breaker : CircuitBreaker
  pub client : Client e.redis
  pub sent : List (Sent e.F)
  pub rows : List (MetricsRow e.F)
  pub tasks : List (Task e)

-- The clock's readings during the request (seconds for Redis and `created`, ticks for the breaker),
-- its duration as it is logged, and what other requests do to the breaker while this one awaits the
-- primary provider.
pub record Moments (e : Externals) : Type 0 where
  pub authenticated_at : ℕ
  pub rate_checked_at : ℕ
  pub cache_read_at : ℕ
  pub allowed_at : ℕ
  pub settled_at : ℕ
  pub created_at : ℕ
  pub elapsed_ms : e.F
  pub meanwhile : CircuitBreaker → CircuitBreaker

pub data Step (A : Type 0) : Type 0 where
  next : A → Step A
  stop : End → Step A

abbrev pub M : Externals → Type 0 → Type 0
M e A = Gateway e → Step A × Gateway e

abbrev pub continue : {e : Externals} {A B : Type 0} → Step A → (A → M e B) → M e B
continue (next a) f g = f a g
continue (stop end) f g = (stop end, g)

infixl 5 ◌>>=◌ ◌>>◌
abbrev pub ◌>>=◌ : {e : Externals} {A B : Type 0} → M e A → (A → M e B) → M e B
◌>>=◌ m f g = let (s, g') = m g in continue s f g'

abbrev pub ◌>>◌ : {e : Externals} {A B : Type 0} → M e A → M e B → M e B
m >> k = m >>= λ _. k

abbrev pub pass : {e : Externals} {A : Type 0} → A → M e A
pass a g = (next a, g)

abbrev pub ended : Step ChatCompletionResponse → End
ended (next response) = completed response
ended (stop end) = end
