-- ===== src/Pii/Patterns.antt =====
-- The five patterns of app/core/pii.py.
use llmgov.Base.{ℕ, Bool, ◌||◌, ◌&&◌, leb, ◌==◌, is_space}
use llmgov.Regex.{Regex, one, many, seq, alt, optional, plus, exactly, up_to}
use llmgov.Unicode.{Unicode, is_digit, word_boundary, not_behind_word, not_before_word}

-- `[a-zA-Z]`, `[0-9]` and a class of one character.
abbrev letter : ℕ → Bool
letter c = (leb b'a' c && leb c b'z') || (leb b'A' c && leb c b'Z')

abbrev ascii_digit : ℕ → Bool
ascii_digit c = leb b'0' c && leb c b'9'

abbrev lit : ℕ → Regex
lit c = one (λ d. d == c)

-- `[a-zA-Z0-9._%+-]` and `[a-zA-Z0-9.-]`
abbrev local_char : ℕ → Bool
local_char c =
    letter c
    || (ascii_digit c || (c == b'.' || (c == b'_' || (c == b'%' || (c == b'+' || c == b'-')))))

abbrev domain_char : ℕ → Bool
domain_char c = letter c || (ascii_digit c || (c == b'.' || c == b'-'))

-- `[-.\s]?`
abbrev separator : Regex
separator = optional (one (λ c. c == b'-' || (c == b'.' || is_space c)))

-- `25[0-5]|2[0-4][0-9]|[01]?[0-9][0-9]?`
abbrev octet : Regex
octet = alt (seq (lit b'2') (seq (lit b'5') (one (λ c. leb b'0' c && leb c b'5')))) (
    alt (seq (lit b'2') (seq (one (λ c. leb b'0' c && leb c b'4')) (one ascii_digit))) (
      seq (optional (one (λ c. c == b'0' || c == b'1')))
        (seq (one ascii_digit) (optional (one ascii_digit)))))

module _ (u : Unicode) where
  unfoldable pub email_regex : Regex
  email_regex = seq (word_boundary u) (
      seq (plus local_char) (
        seq (lit b'@') (
          seq (plus domain_char) (
            seq (lit b'.')
              (seq (one letter) (seq (one letter) (seq (many letter) (word_boundary u))))))))

  -- `\d{n}`
  abbrev digits : ℕ → Regex
  digits n = exactly n (one (is_digit u))

  unfoldable pub phone_regex : Regex
  unfolding exactly up_to is_space
  phone_regex = seq (not_behind_word u) (
      seq (optional (seq (lit b'+') (seq (digits 1) (seq (up_to 2 (one (is_digit u))) separator))))
        (seq (alt (seq (lit b'(') (seq (digits 3) (lit b')'))) (digits 3))
          (seq separator (seq (digits 3) (seq separator (seq (digits 4) (not_before_word u)))))))

  -- `\d[- ]*`
  abbrev spaced_digit : Regex
  spaced_digit = seq (one (is_digit u)) (many (λ c. c == b'-' || c == b' '))

  unfoldable pub credit_card_regex : Regex
  unfolding exactly up_to
  credit_card_regex = seq (word_boundary u) (
      seq (exactly 12 spaced_digit)
        (seq (up_to 3 spaced_digit) (seq (one (is_digit u)) (word_boundary u))))

  unfoldable pub ssn_regex : Regex
  unfolding exactly
  ssn_regex = seq (word_boundary u) (
      seq (digits 3)
        (seq (lit b'-') (seq (digits 2) (seq (lit b'-') (seq (digits 4) (word_boundary u))))))

  unfoldable pub ipv4_regex : Regex
  unfolding exactly
  ipv4_regex =
      seq (word_boundary u) (seq (exactly 3 (seq octet (lit b'.'))) (seq octet (word_boundary u)))
