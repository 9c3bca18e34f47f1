-- ===== src/Tests/ErasedRuns.antt =====
-- A request with an email address, through the route with the gateway's own redaction.
use llmgov.Base.{◌≡◌, refl, true, [], none, some, codes, All}
use llmgov.Breaker.{new}
use llmgov.Regex.{pieces, subn}
use llmgov.Pii.{redact_pii, redact_cards}
use llmgov.Pii.Patterns.{email_regex, ssn_regex, credit_card_regex, phone_regex, ipv4_regex}
use llmgov.Pii.Residue.{Free}
use llmgov.Pii.Erased.{AreBrackets, redact_pii-Free}
use llmgov.Externals.{Externals, provider_error}
use llmgov.Completions.{Moments, Gateway}
use llmgov.Completions.Route.{chat_completions}
use llmgov.Completions.Guarded.{with_pii}
use llmgov.Completions.Erased.{SendsErased, chat_completions-SendsErased}
use llmgov.Tests.Store.{accounts}
use llmgov.Tests.Values.{ascii}
use llmgov.Tests.Services.{services, request, headers}

ascii-AreBrackets : AreBrackets ascii
ascii-AreBrackets = record {
  open_word = refl;
  close_word = refl;
  open_digit = refl;
  close_digit = refl;
}

abbrev guarded : Externals
guarded = with_pii ascii (services provider_error)

abbrev at : Moments guarded
at = record {
  authenticated_at = 5;
  rate_checked_at = 5;
  cache_read_at = 5;
  allowed_at = 5;
  settled_at = 6;
  created_at = 7;
  elapsed_ms = 1;
  meanwhile = λ b. b;
}

abbrev started : Gateway guarded
started = record {
  breaker = new 5 30;
  client = some (accounts (codes "llmgov:auth:k1"));
  sent = [];
  rows = [];
  tasks = [];
}

-- An address behind a number that is redacted in a later pass.
redacted_both : redact_pii ascii (codes "a@b.co 123-45-6789") ≡ (codes "[EMAIL] [SSN]", true)
unfolding redact_pii subn pieces redact_cards email_regex ssn_regex credit_card_regex phone_regex
    ipv4_regex
redacted_both = refl

redact_pii-Free_example :
    Free (email_regex ascii) none (redact_pii ascii (codes "a@b.co 123-45-6789")).0
    × Free (ssn_regex ascii) none (redact_pii ascii (codes "a@b.co 123-45-6789")).0
redact_pii-Free_example = redact_pii-Free ascii (codes "a@b.co 123-45-6789") ascii-AreBrackets

chat_completions-SendsErased_example :
    All
      (SendsErased ascii request)
      (chat_completions guarded at (codes "t") request (headers (codes "k1")) started).1.sent
chat_completions-SendsErased_example =
    chat_completions-SendsErased ascii (services provider_error) at (codes "t") request
      (headers (codes "k1")) started ascii-AreBrackets (λ e. cc e) refl
