-- ===== src/Unicode.antt =====
-- What the programs use of the Unicode character database, which is part of Python's data and not of
-- the repository: which code points are letters, digits or underscores (`\w`), and the value of a
-- decimal digit (`\d`), `none` for any other code point.
use llmgov.Base.{ℕ, Bool, true, false, not, Option, none, some, if◌then◌else◌}
use llmgov.Regex.{Regex, look}

pub record Unicode : Type 0 where
  pub word : ℕ → Bool
  pub decimal : ℕ → Option ℕ

module _ (u : Unicode) where
  abbrev pub is_digit : ℕ → Bool
  is_digit c = elim (u.decimal c) [ none ↦ false | some d ↦ true ]

  abbrev pub is_word : Option ℕ → Bool
  is_word none = false
  is_word (some c) = u.word c

  -- `\b`
  abbrev pub word_boundary : Regex
  word_boundary =
      look (λ before after. if is_word before then not (is_word after) else is_word after)

  -- `(?<!\w)` and `(?!\w)`
  abbrev pub not_behind_word : Regex
  not_behind_word = look (λ before after. not (is_word before))

  abbrev pub not_before_word : Regex
  not_before_word = look (λ before after. not (is_word after))
