-- ===== src/Pii/Flag.antt =====
-- What the flag of `redact_pii` says.
use llmgov.Base.{
  ◌≡◌, refl, ap, ◌∙◌, inl, inr, true, false, List, [], ◌∷◌, Text, codes, is_empty, arith,
  Bool-cases,
}
use llmgov.Regex.{Piece, plain, match, pieces, subn}
use llmgov.Regex.Scan.{consumes, joined, joined-pieces, subn-none}
use llmgov.Unicode.{Unicode}
use llmgov.Pii.Patterns.{email_regex, ssn_regex, credit_card_regex, phone_regex, ipv4_regex}
use llmgov.Pii.{redact_cards, redact_pii}

-- No pattern takes the empty text, whatever the Unicode classes are.
module _ (u : Unicode) where
  email-consumes : consumes (email_regex u) ≡ true
  unfolding consumes email_regex
  email-consumes = refl

  ssn-consumes : consumes (ssn_regex u) ≡ true
  unfolding consumes ssn_regex
  ssn-consumes = refl

  credit_card-consumes : consumes (credit_card_regex u) ≡ true
  unfolding consumes credit_card_regex
  credit_card-consumes = refl

  phone-consumes : consumes (phone_regex u) ≡ true
  unfolding consumes phone_regex
  phone-consumes = refl

  ipv4-consumes : consumes (ipv4_regex u) ≡ true
  unfolding consumes ipv4_regex
  ipv4-consumes = refl

  redact_cards_unflagged :
      (found : List Piece)
      → (redact_cards u found).1 ≡ false
      → (redact_cards u found).0 ≡ joined found
  unfolding redact_cards
  redact_cards_unflagged [] h = refl
  redact_cards_unflagged (plain c ∷ rest) h = ap (λ t. c ∷ t) (redact_cards_unflagged rest h)
  redact_cards_unflagged (match text ∷ rest) h = ground (arith, redact_cards_unflagged rest)

  -- A text that comes back unflagged comes back unchanged.
  pub redact_pii-unflagged :
      (text : Text) → (redact_pii u text).1 ≡ false → (redact_pii u text).0 ≡ text
  unfolding redact_pii
  redact_pii-unflagged text h = elim (Bool-cases (is_empty text)) [
    | inl e ↦ rw e refl
    | inr full ↦
        let no_emails = (subn (email_regex u) (codes "[EMAIL]") text).0 in
        let no_ssns = (subn (ssn_regex u) (codes "[SSN]") no_emails).0 in
        let found = pieces (credit_card_regex u) no_ssns in
        let no_cards = (redact_cards u found).0 in
        let no_phones = (subn (phone_regex u) (codes "[PHONE]") no_cards).0 in
        let same_emails =
          subn-none (email_regex u) (codes "[EMAIL]") text email-consumes (ground (arith, h)) in
        let same_ssns =
          subn-none (ssn_regex u) (codes "[SSN]") no_emails ssn-consumes (ground (arith, h)) in
        let same_cards =
          redact_cards_unflagged found (ground (arith, h))
          ∙ joined-pieces (credit_card_regex u) no_ssns credit_card-consumes in
        let same_phones =
          subn-none (phone_regex u) (codes "[PHONE]") no_cards phone-consumes (ground (arith, h)) in
        let same_addresses =
          subn-none (ipv4_regex u) (codes "[IP_ADDRESS]") no_phones ipv4-consumes
            (ground (arith, h)) in
        rw full (same_addresses ∙ (same_phones ∙ (same_cards ∙ (same_ssns ∙ same_emails))))
  ]
