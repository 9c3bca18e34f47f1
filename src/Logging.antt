-- ===== src/Logging.antt =====
-- app/core/logging.py: the JSON line of a log record, and the set-up of Python's `logging`, whose
-- loggers are not part of the repository.
pub mod Line
use llmgov.Base.{
  ℕ, Bool, Option, none, some, List, [], ◌∷◌, ◌++◌, Text, codes, is_empty, text_eq, if◌then◌else◌,
}
use llmgov.Json.{quote}

-- A value that is a text, or any other, which `json.dumps(..., default=str)` writes.
pub data Value (A : Type 0) : Type 0 where
  text : Text → Value A
  other : A → Value A

-- `logging.LogRecord`, as far as the formatter reads it: `attribute` is `getattr(record, key, None)`,
-- and `exception` the text of `exc_info` where that holds an exception.
pub record LogRecord (A : Type 0) : Type 0 where
  pub levelname : Text
  pub name : Text
  pub message : Text
  pub attribute : Text → Option (Value A)
  pub exception : Option Text

unfoldable pub extra_keys : List Text
extra_keys =
    codes "model"
    ∷ codes "provider"
    ∷ codes "app_id"
    ∷ codes "latency_ms"
    ∷ codes "status_code"
    ∷ codes "has_pii_redacted"
    ∷ codes "toxicity_score"
    ∷ codes "is_toxic"
    ∷ codes "jailbreak_score"
    ∷ codes "is_jailbreak"
    ∷ []

module _ {A : Type 0} (show : A → Text) where
  unfoldable pub dumps : Value A → Text
  dumps (text t) = quote t
  dumps (other a) = show a

  unfoldable pub dumps_field : Text × Value A → Text
  unfolding dumps
  dumps_field (key, value) = quote key ++ codes ": " ++ dumps value

  unfoldable pub dumps_fields : List (Text × Value A) → Text
  unfolding dumps_field
  dumps_fields [] = []
  dumps_fields (field ∷ []) = dumps_field field
  dumps_fields (field ∷ next ∷ fields) =
      dumps_field field ++ codes ", " ++ dumps_fields (next ∷ fields)

  -- `json.dumps` of a dict, in the order of its keys.
  unfoldable pub dumps_object : List (Text × Value A) → Text
  unfolding dumps_fields
  dumps_object fields = codes "{" ++ dumps_fields fields ++ codes "}"

  -- The loop over the extra fields.
  unfoldable pub extra_fields : LogRecord A → List Text → List (Text × Value A)
  extra_fields log [] = []
  extra_fields log (key ∷ keys) =
      let rest = extra_fields log keys in
      elim (log.attribute key) [ none ↦ rest | some value ↦ (key, value) ∷ rest ]

  abbrev pub trace_field : Option Text → List (Text × Value A)
  trace_field none = []
  trace_field (some trace_id) =
      if is_empty trace_id then [] else (codes "trace_id", text trace_id) ∷ []

  abbrev pub exception_field : Option Text → List (Text × Value A)
  exception_field none = []
  exception_field (some exception) = (codes "exception", text exception) ∷ []

  unfoldable pub log_entry : Text → Option Text → LogRecord A → List (Text × Value A)
  unfolding extra_fields extra_keys
  log_entry timestamp trace_id log =
      (codes "timestamp", text timestamp)
      ∷ (codes "level", text log.levelname)
      ∷ (codes "logger", text log.name)
      ∷ (codes "message", text log.message)
      ∷ (trace_field trace_id ++ (extra_fields log extra_keys ++ exception_field log.exception))

  -- `JSONFormatter.format`, with the time and `get_request_id()`.
  unfoldable pub format : Text → Option Text → LogRecord A → Text
  unfolding dumps_object log_entry
  format timestamp trace_id log = dumps_object (log_entry timestamp trace_id log)

-- What `setup_logging` configures: the root logger's level and handlers, and the levels of named
-- loggers.
pub data Handler : Type 0 where
  json_to_stdout : Handler
  other_handler : ℕ → Handler

pub record Loggers : Type 0 where
  pub root_level : Text
  pub handlers : List Handler
  pub levels : Text → Option Text

unfoldable pub set_level : Text → Text → (Text → Option Text) → Text → Option Text
unfolding text_eq
set_level name level levels asked = if text_eq asked name then some level else levels asked

-- `is_level` is which names `logging` knows; `none` is the `ValueError` for another, which leaves
-- the loggers as they were.
unfoldable pub setup_logging :
    (upper : Text → Text) (is_level : Text → Bool) → Text → Loggers → Option Loggers
unfolding set_level
setup_logging upper is_level level loggers =
    if is_level (upper level)
    then some (record {
      root_level = upper level;
      handlers = json_to_stdout ∷ [];
      levels =
          set_level (codes "httpx") (codes "WARNING")
            (set_level (codes "uvicorn.access") (codes "WARNING") loggers.levels);
    })
    else none
