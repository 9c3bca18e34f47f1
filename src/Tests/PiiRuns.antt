-- ===== src/Tests/PiiRuns.antt =====
-- Redaction of texts of the repository's own tests, with the classes of ASCII.
use llmgov.Base.{ℕ, ◌≡◌, refl, true, false, List, [], ◌∷◌, ◌++◌, codes, arith}
use llmgov.Regex.{pieces, subn}
use llmgov.Tests.Values.{ascii}
use llmgov.Pii.Patterns.{email_regex, ssn_regex, credit_card_regex, phone_regex, ipv4_regex}
use llmgov.Pii.{luhn_valid, redact_cards, redact_pii}
use llmgov.Models.{ChatMessage}
use llmgov.Externals.{Externals, other_error}
use llmgov.Completions.Calls.{redact_messages}
use llmgov.Completions.Guarded.{with_pii, redact_messages-unflagged}
use llmgov.Tests.Services.{services}
use llmgov.Pii.Luhn.{luhn_valid-finds_one_digit}

abbrev before : List ℕ
before = 7 ∷ 9 ∷ 9 ∷ 2 ∷ 7 ∷ 3 ∷ []

abbrev after : List ℕ
after = 8 ∷ 7 ∷ 1 ∷ 3 ∷ []

valid : luhn_valid (before ++ 9 ∷ after) ≡ true
unfolding luhn_valid
valid = refl

not_valid : luhn_valid (before ++ 8 ∷ after) ≡ false
unfolding luhn_valid
not_valid = refl

luhn_valid-finds_one_digit_example : ◌≡◌ {A = ℕ} 9 9
luhn_valid-finds_one_digit_example =
    luhn_valid-finds_one_digit before 9 9 after (omega arith) (omega arith) valid valid

redacted_email : redact_pii ascii (codes "to a.b@c.co, now") ≡ (codes "to [EMAIL], now", true)
unfolding redact_pii subn pieces redact_cards email_regex ssn_regex credit_card_regex phone_regex
    ipv4_regex
redacted_email = refl

redacted_card : redact_pii ascii (codes "4111 1111 1111 1111") ≡ (codes "[CREDIT_CARD]", true)
unfolding redact_pii subn pieces redact_cards email_regex ssn_regex credit_card_regex phone_regex
    ipv4_regex
redacted_card = refl

redacted_others :
    redact_pii ascii (codes "123-45-6789 (555) 123-4567 10.0.255.1")
    ≡ (codes "[SSN] [PHONE] [IP_ADDRESS]", true)
unfolding redact_pii subn pieces redact_cards email_regex ssn_regex credit_card_regex phone_regex
    ipv4_regex
redacted_others = refl

unflagged : (redact_pii ascii (codes "call 12345")).1 ≡ false
unfolding redact_pii subn pieces redact_cards email_regex ssn_regex credit_card_regex phone_regex
    ipv4_regex
unflagged = refl

abbrev asked : List ChatMessage
asked = record { role = codes "user"; content = codes "call 12345" } ∷ []

abbrev gateway_services : Externals
gateway_services = services other_error

asked_unflagged : (redact_messages (with_pii ascii gateway_services) asked).1 ≡ false
unfolding redact_messages redact_pii subn pieces redact_cards email_regex ssn_regex
    credit_card_regex phone_regex ipv4_regex
asked_unflagged = refl

redact_messages-unflagged_example :
    (redact_messages (with_pii ascii gateway_services) asked).0 ≡ asked
redact_messages-unflagged_example =
    redact_messages-unflagged ascii gateway_services asked asked_unflagged

-- A phone number in front of a card number: the search for cards takes the first 14 digits, which
-- are no card, and misses the card; the number stays in the text.
card_kept :
    redact_pii ascii (codes "123-456-7890 4111-1111-1111-1111")
    ≡ (codes "[PHONE] 4111-1111-1111-1111", true)
unfolding redact_pii subn pieces redact_cards email_regex ssn_regex credit_card_regex phone_regex
    ipv4_regex
card_kept = refl
