-- ===== src/Pii.antt =====
-- app/core/pii.py: `passes_luhn` and `redact_pii`, with the patterns of Pii.Patterns.
pub mod Patterns
pub mod Search
pub mod Residue
pub mod Erased
pub mod Luhn
pub mod Flag
use llmgov.Base.{
  ℕ, ◌+◌, ◌*◌, ◌/◌, ◌%◌, Bool, true, false, ◌||◌, Option, none, some, List, [], ◌∷◌, ◌++◌, map,
  reverse, Text, codes, is_empty, ltb, ◌==◌, if◌then◌else◌,
}
use llmgov.Regex.{Piece, plain, match, pieces, subn}
use llmgov.Unicode.{Unicode}
use llmgov.Pii.Patterns.{email_regex, ssn_regex, credit_card_regex, phone_regex, ipv4_regex}

-- `s[::2]`
unfoldable pub every_other : List ℕ → List ℕ
every_other [] = []
every_other (x ∷ []) = x ∷ []
every_other (x ∷ y ∷ rest) = x ∷ every_other rest

abbrev pub without_first : List ℕ → List ℕ
without_first [] = []
without_first (x ∷ rest) = rest

abbrev pub sum : List ℕ → ℕ
sum [] = 0
sum (x ∷ rest) = x + sum rest

-- `sum(divmod(d * 2, 10))`
abbrev pub doubled : ℕ → ℕ
doubled d = d * 2 / 10 + d * 2 % 10

-- `digits[-1::-2]` counts as it stands, `digits[-2::-2]` doubled.
unfoldable pub luhn_total : List ℕ → ℕ
unfolding every_other
luhn_total digits =
    sum (every_other (reverse digits))
    + sum (map doubled (every_other (without_first (reverse digits))))

abbrev pub is_nil : List ℕ → Bool
is_nil [] = true
is_nil (x ∷ rest) = false

unfoldable pub luhn_valid : List ℕ → Bool
unfolding luhn_total
luhn_valid digits = if is_nil digits then false else luhn_total digits % 10 == 0

abbrev pub credit_card : Text
credit_card = codes "[CREDIT_CARD]"

module _ (u : Unicode) where
  -- The digits of a text. In a card number, which `\d` has matched, they are the characters of which
  -- `str.isdigit` holds.
  unfoldable pub digits_of : Text → List ℕ
  digits_of [] = []
  digits_of (c ∷ text) =
      let rest = digits_of text in elim (u.decimal c) [ none ↦ rest | some d ↦ d ∷ rest ]

  -- `passes_luhn`
  unfoldable pub passes_luhn : Text → Bool
  unfolding luhn_valid digits_of
  passes_luhn card_number = luhn_valid (digits_of card_number)

  -- `CREDIT_CARD_REGEX.sub(redact_cc, ...)`, and `cc_redacted` afterwards. The digits of a match are
  -- taken twice, in `redact_cc` and in `passes_luhn`, with one result.
  unfoldable pub redact_cards : List Piece → Text × Bool
  unfolding passes_luhn
  redact_cards [] = ([], false)
  redact_cards (plain c ∷ rest) = let (redacted, flag) = redact_cards rest in (c ∷ redacted, flag)
  redact_cards (match text ∷ rest) =
      let (redacted, flag) = redact_cards rest in
      if passes_luhn text then (credit_card ++ redacted, true) else (text ++ redacted, flag)

  -- `redact_pii`
  unfoldable pub redact_pii : Text → Text × Bool
  redact_pii text =
      if is_empty text
      then (text, false)
      else let (no_emails, count_email) = subn (email_regex u) (codes "[EMAIL]") text in
        let (no_ssns, count_ssn) = subn (ssn_regex u) (codes "[SSN]") no_emails in
        let (no_cards, cc_redacted) = redact_cards (pieces (credit_card_regex u) no_ssns) in
        let (no_phones, count_phone) = subn (phone_regex u) (codes "[PHONE]") no_cards in
        let (redacted, count_ipv4) = subn (ipv4_regex u) (codes "[IP_ADDRESS]") no_phones in
        (
          redacted,
          ltb 0 count_email
              || (ltb 0 count_ssn || (cc_redacted || (ltb 0 count_phone || ltb 0 count_ipv4))),
        )
