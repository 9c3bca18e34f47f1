-- ===== src/Tests/LoggingRuns.antt =====
-- A log record whose message tries to start a line of its own.
use llmgov.Base.{
  ℕ, ◌+◌, ◌%◌, ◌≡◌, refl, none, some, [], ◌∷◌, Text, text_eq, codes, arith, if◌then◌else◌,
}
use llmgov.Json.{quote, named_escape}
use llmgov.Logging.{LogRecord, other, format}
use llmgov.Logging.Line.{IsLine, format-IsLine}

abbrev show : ℕ → Text
show n = (48 + n % 10) ∷ []

show-IsLine : (n : ℕ) → IsLine (show n)
show-IsLine n = ((omega arith, omega arith), tt)

abbrev forged : LogRecord ℕ
forged = record {
  levelname = codes "INFO";
  name = codes "app";
  message = codes "x\n{\"y\"";
  attribute = λ key. if text_eq key (codes "status_code") then some (other 5) else none;
  exception = none;
}

one_line :
    format show (codes "now") none forged
    ≡ codes
        "{\"timestamp\": \"now\", \"level\": \"INFO\", \"logger\": \"app\", \"message\": \"x\\n{\\\"y\\\"\", \"status_code\": 5}"
unfolding format quote text_eq named_escape
one_line = refl

format-IsLine_example : IsLine (format show (codes "now") none forged)
format-IsLine_example = format-IsLine show show-IsLine (codes "now") none forged
