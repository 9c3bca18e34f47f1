-- ===== src/Completions/Background.antt =====
-- The background tasks of a request, which run one after another behind its response:
-- `record_audit_log` of app/core/telemetry.py, `evaluate_and_record_response` of app/core/eval.py and
-- `set_cached_completion` of app/core/cache.py. None of them raises.
use llmgov.Base.{ℕ, Bool, true, false, Option, none, some, List, [], ◌∷◌, Text}
use llmgov.Cache.{set_cached_completion}
use llmgov.Audit.{Tools, Round, Ledger, Entry, record_audit_log}
use llmgov.Floats.{Floats}
use llmgov.Eval.{Grader, EvalRow, evaluate_and_record_response}
use llmgov.Externals.{Externals}
use llmgov.Completions.{Gateway, Task, audit, evaluate, write_cache}

-- The shared objects of the gateway, with the audit log and the table of evaluation results.
pub record World (e : Externals) (f : Floats) : Type 0 where
  pub gateway : Gateway e
  pub ledger : Ledger e.F
  pub evals : List (EvalRow f.F)

-- What the tasks of one request are given: the time of the audit, how the rounds of its lock end
-- and what other calls do in front of its insert, and the time of the cache write.
pub record Afterwards (F : Type 0) : Type 0 where
  pub audited_at : Text
  pub rounds : ℕ → Round F
  pub others : Ledger F → Ledger F
  pub cached_at : ℕ

-- `get_redis()` returns.
abbrev pub is_initialized : {A : Type 0} → Option A → Bool
is_initialized none = false
is_initialized (some client) = true

module _ {e : Externals} (tools : Tools e.F) {f : Floats} (grader : Grader f)
    (given : Afterwards e.F) where
  unfoldable pub run_task : Task e → World e f → World e f
  run_task
        (audit trace_id sanitized_prompt raw_response has_pii_redacted toxicity_score
          jailbreak_score)
        w =
      let entry : Entry e.F = record {
        trace_id = trace_id;
        timestamp = given.audited_at;
        sanitized_prompt = sanitized_prompt;
        raw_response = raw_response;
        has_pii_redacted = has_pii_redacted;
        toxicity_score = toxicity_score;
        jailbreak_score = jailbreak_score;
      } in
      record w {
        ledger =
            record_audit_log tools entry (is_initialized w.gateway.client) given.rounds given.others
              w.ledger;
      }
  run_task (evaluate trace_id prompt response_text) w = record w {
    evals =
        evaluate_and_record_response grader trace_id prompt response_text none false none w.evals;
  }
  run_task (write_cache prompt_version model prompt_hash payload vector) w = record w {
    gateway = record (w.gateway) {
      client =
          set_cached_completion e.redis e.json prompt_version model prompt_hash payload
            (e.vector_json vector) given.cached_at w.gateway.client;
    };
  }

  unfoldable pub run_tasks : List (Task e) → World e f → World e f
  unfolding run_task
  run_tasks [] w = w
  run_tasks (task ∷ tasks) w = run_tasks tasks (run_task task w)
