-- ===== src/Lib.antt =====
-- LLMGov, a gateway in front of language model providers: it authenticates a request, limits its
-- rate, answers it from a cache or from a provider behind a circuit breaker (with a local model as
-- the fallback), and keeps metrics and a hash-chained audit log. Modelled is the Python code of
-- app/.
--
-- Parts, and how they work together:
-- - Base: what the modules share; texts are lists of code points.
-- - Redis: app/core/redis.py, and `Redis`, the commands that the gateway sends. Every call has its
--   time as an argument; a failing call is `none`. Auth, RateLimit and Cache take it as a parameter.
-- - Auth: app/core/auth.py, `authenticate_api_key`.
-- - RateLimit: app/core/rate_limiter.py, `check_rate_limit`. What Redis documents of INCR and EXPIRE
--   in one transaction is the record `RateLimit.Window.CountsHits`; a transaction that fails may have
--   been executed or not.
-- - Breaker: app/core/circuit_breaker.py. A method takes the breaker and returns it changed.
--   Breaker.Calls puts calls of the provider in flight together, as a step relation: the
--   `try`/`except`/`finally` of app/api/completions.py around the awaited call.
-- - Models: app/models/completions.py; Models.Validation is what the fields' types and constraints
--   make of a posted body, in which a value may be missing or of another type.
-- - Cache: app/core/cache.py and app/core/cache_keys.py. `Cache.Store.KeepsValues` is what Redis
--   documents of SETEX in one transaction, and `RoundTrips` what the JSON functions are relied on for.
-- - Externals: the arguments and answers of LiteLLM, app/core/embeddings.py, and the record of what
--   the route calls.
-- - Completions: app/api/completions.py, `chat_completions`. A step takes the state `Gateway` (the
--   breaker, the Redis client, what was sent to providers, the metrics rows, the background tasks)
--   and goes on or ends the request. Checks is lines 61 to 161, Calls lines 163 to 240, Finish lines
--   242 to 342, and Route puts them together. `Moments` has the clock's readings, and what other
--   requests do to the breaker while this one awaits the primary provider. Completions.Repeat puts
--   the route and the cache together; `LeavesOthers` is what Redis documents of counting.
--   Completions.Guarded has the route with the gateway's own redaction; Completions.Background runs
--   the tasks that the route leaves, over the gateway with the audit log and the evaluations
--   (`World`); Completions.Service has requests one after another on one Redis with other processes.
-- - Audit: the hash chain of app/core/telemetry.py: `serialize_audit_row`, `compute_row_hash`,
--   `record_audit_log`. A round of the optimistic lock commits, is contended, with what other calls
--   have done to the key and the table until it is read again, or fails before or after Redis has
--   set the key; what other calls do in front of the insert is an argument as well. Audit.Lock is about its
--   loop, and Audit.Chain has a verifier of the table; Audit.Client is `_get_client`.
--   Audit.Workers has any number of calls that run together, as a step relation: a step is one
--   access of one call to Redis or ClickHouse, and a transaction goes through where the watched key
--   has not been set since.
-- - Regex: the part of Python's `re` that the guardrails use, with the order in which the engine tries
--   matches; Regex.Matches says what a pattern matches with no such order. Unicode: the classes of
--   characters, a parameter.
-- - Pii: app/core/pii.py, its patterns, `passes_luhn` and `redact_pii`. Regex.Context says how a match
--   depends on what stands around it, and Pii.Residue what a pass that puts in tokens makes of the
--   matches of another pattern.
-- - Floats: the operations of floats, a parameter. Toxicity: app/core/toxicity.py,
--   `classify_toxicity`.
-- - Json: how `json.dumps` writes a text, which Audit and Logging use.
-- - Lines: `str.splitlines` and what app/core/eval.py does with a Markdown fence. Eval: that file,
--   `validate_schema`, `record_eval_result` and `evaluate_and_record_response`; Eval.Async is
--   `run_llm_judge`, the judge's other copy, around LiteLLM's asynchronous call. The record `Grader`
--   has the answers of the JSON parser, `jsonschema`, LiteLLM and ClickHouse.
-- - Logging: app/core/logging.py, `JSONFormatter.format` and `setup_logging`. Config:
--   app/config/settings.py.
-- - Jailbreak: app/core/jailbreak.py, the reference vectors and `detect_jailbreak`, over floats as a
--   parameter.
-- - Prompts: app/core/prompt_registry.py, `PromptRegistry`; the YAML file and `random.choices` are
--   parameters; Prompts.Render is `PromptVersion.render`.
-- - Middleware: app/middleware/request_id.py, `RequestIDMiddleware.dispatch`, around the route, with
--   the context variable as state that the wrapped call is given and may change;
--   Middleware.ErrorHandler is app/middleware/error_handler.py, and Middleware.Application the routes,
--   the health check and the lifespan hook of app/main.py. Middleware.Front takes a posted body
--   through validation, middleware and route.
-- - Tests: a Redis in memory and services with fixed answers, and the concrete cases.
--
-- Bounds and fuel: the lock's loop has the code's five rounds, and what it does after the fifth is
-- modelled; digits of a number are printed with fuel one above the number, which has fewer digits; a
-- search with a pattern has fuel one above the length of the text, and each step takes a character
-- or a match that is not empty.
-- Times, limits and windows are natural numbers; the breaker's clock counts ticks in place of
-- floats. Python's integers are not bounded.
--
-- Not modelled: the route is given the guardrails and the prompt's selection as functions, and
-- its theorems hold for all such functions; only the redaction is put in (Completions.Guarded and
-- Completions.Erased).
-- Pydantic's conversion of types, the texts of its errors and uvicorn are left out; how a
-- temperature compares with its bounds is a parameter. SHA-256, the JSON parser,
-- `str.lower`, Redis, ClickHouse and the providers are parameters. A cancellation is modelled at
-- the primary call, where the `finally` block runs, and nowhere else. The
-- background tasks of one request run one after another; those of different requests run together
-- in Audit.Workers only.
pub mod Base
pub mod Middleware
pub mod Jailbreak
pub mod Prompts
pub mod Regex
pub mod Unicode
pub mod Floats
pub mod Toxicity
pub mod Json
pub mod Config
pub mod Logging
pub mod Eval
pub mod Lines
pub mod Redis
pub mod Pii
pub mod RateLimit
pub mod Auth
pub mod Models
pub mod Cache
pub mod Externals
pub mod Completions
pub mod Audit
pub mod Breaker
pub mod Tests
