-- ===== src/Completions/Closing.antt =====
-- What the end of a request leaves alone: only the metrics rows and the background tasks change.
use llmgov.Base.{◌≡◌, refl, inl, inr, Bool, List, Option-cases, Text}
use llmgov.Models.{ChatCompletionRequest}
use llmgov.Externals.{Externals, ModelResponse, MetricsRow}
use llmgov.Completions.{Moments, Gateway, Task}
use llmgov.Completions.Finish.{write_metrics, add_tasks}
use llmgov.Completions.Route.{finish}
use llmgov.Completions.Keeps.{Keeps, Keeps-pass, Keeps-bind}

pub record SameCalls {e : Externals} (g g' : Gateway e) : Type 0 where
  pub breaker : g'.breaker ≡ g.breaker
  pub client : g'.client ≡ g.client
  pub sent : g'.sent ≡ g.sent

module _ (e : Externals) (at : Moments e) (trace_id app_id : Text)
    (request : ChatCompletionRequest e.F) (g : Gateway e) where
  write_metrics-SameCalls :
      (row : MetricsRow e.F) → Keeps (SameCalls g) (write_metrics e at trace_id app_id request row)
  unfolding write_metrics
  write_metrics-SameCalls row = record {
    at = λ g' h. elim (Option-cases (e.insert_metrics row)) [
      | inl failed ↦ rw failed h
      | inr (stored, e') ↦ rw e' (record { breaker = h.breaker; client = h.client; sent = h.sent })
    ];
  }

  add_tasks-SameCalls :
      (new : List (Task e)) → Keeps (SameCalls g) (add_tasks e at trace_id app_id request new)
  unfolding add_tasks
  add_tasks-SameCalls new = record {
    at = λ g' h. record { breaker = h.breaker; client = h.client; sent = h.sent };
  }

module _ (e : Externals) (at : Moments e) (trace_id : Text)
    (request : ChatCompletionRequest e.F) where
  finish-Keeps :
      (admitted : Text × Text) (asked : (ModelResponse × Bool) × (e.F × Bool)) (g : Gateway e)
      → Keeps (SameCalls g) (finish e at trace_id request admitted asked)
  unfolding finish
  finish-Keeps (a, v) ((x, used), (s, j)) g =
      search (Keeps-pass, Keeps-bind, write_metrics-SameCalls, add_tasks-SameCalls) depth 8

  pub finish-SameCalls :
      (admitted : Text × Text) (asked : (ModelResponse × Bool) × (e.F × Bool)) (g : Gateway e)
      → SameCalls g (finish e at trace_id request admitted asked g).1
  finish-SameCalls admitted asked g =
      (finish-Keeps admitted asked g).at g (record { breaker = refl; client = refl; sent = refl })
