-- ===== src/Pii/Search.antt =====
-- The patterns for personal data, for which a search ends.
use llmgov.Base.{◌≡◌, refl, true, List, [], ◌∷◌, All}
use llmgov.Unicode.{Unicode}
use llmgov.Regex.{Regex, exactly, up_to}
use llmgov.Regex.Scan.{consumes}
use llmgov.Pii.Patterns.{email_regex, ssn_regex, credit_card_regex, phone_regex, ipv4_regex}

module _ (u : Unicode) where
  -- In the order in which `redact_pii` uses them.
  abbrev pii_patterns : List Regex
  pii_patterns =
      email_regex u ∷ ssn_regex u ∷ credit_card_regex u ∷ phone_regex u ∷ ipv4_regex u ∷ []

  pub patterns_consume : All (λ x. consumes x ≡ true) pii_patterns
  unfolding consumes exactly up_to email_regex ssn_regex credit_card_regex phone_regex ipv4_regex
  patterns_consume = (refl, (refl, (refl, (refl, (refl, tt)))))
