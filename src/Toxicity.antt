-- ===== src/Toxicity.antt =====
-- app/core/toxicity.py: `classify_toxicity`. Floats and `str.lower` are parameters.
pub mod Flagged
use llmgov.Base.{
  ℕ, ◌≡◌, Bool, true, false, not, ◌&&◌, ◌||◌, Option, none, some, List, [], ◌∷◌, ◌++◌, map, Text,
  codes, is_empty, ◌==◌, is_space, if◌then◌else◌,
}
use llmgov.Regex.{
  literal, Regex, empty, one, few, look, seq, plus, Piece, plain, match, pieces, search_in, split,
}
use llmgov.Unicode.{Unicode, word_boundary}
use llmgov.Floats.{Floats, larger}

-- `TOXIC_LEXICON`, its weights in hundredths.
unfoldable pub toxic_lexicon : List (Text × ℕ)
toxic_lexicon =
    (codes "hate speech", 80)
    ∷ (codes "bigot", 80)
    ∷ (codes "racist", 80)
    ∷ (codes "sexist", 80)
    ∷ (codes "slur", 50)
    ∷ (codes "asshole", 80)
    ∷ (codes "bastard", 50)
    ∷ (codes "idiot", 50)
    ∷ (codes "moron", 50)
    ∷ (codes "stupid", 50)
    ∷ (codes "garbage", 20)
    ∷ (codes "fuck", 80)
    ∷ (codes "shit", 80)
    ∷ (codes "bitch", 80)
    ∷ (codes "crap", 20)
    ∷ (codes "kill yourself", 80)
    ∷ (codes "murder", 80)
    ∷ (codes "harm you", 80)
    ∷ (codes "attack you", 80)
    ∷ []

-- `META_INDICATORS`
unfoldable pub meta_indicators : List Text
meta_indicators =
    codes "called me"
    ∷ codes "said to me"
    ∷ codes "referred to as"
    ∷ codes "the word"
    ∷ codes "someone said"
    ∷ codes "quote"
    ∷ codes "reporting"
    ∷ codes "reported"
    ∷ []

abbrev pub is_quote : ℕ → Bool
is_quote c = c == b'"' || c == b'\''

-- `["'](.*?)["']`, where `.` is no line feed.
unfoldable pub quote_pattern : Regex
quote_pattern = seq (one is_quote) (seq (few (λ c. not (c == 10))) (one is_quote))

-- `(?<=[.!?])\s+`
unfoldable pub sentence_end : Regex
unfolding is_space
sentence_end =
    seq
      (look (λ before after. elim before [
        | none ↦ false
        | some c ↦ c == b'.' || (c == b'!' || c == b'?')
      ]))
      (plus is_space)

-- Group 1 of a match of `quote_pattern`: the match without its first and its last character.
abbrev pub without_last : Text → Text
without_last [] = []
without_last (c ∷ []) = []
without_last (c ∷ d ∷ t) = c ∷ without_last (d ∷ t)

abbrev pub inner : Text → Text
inner [] = []
inner (c ∷ t) = without_last t

-- `QUOTE_PATTERN.findall`
abbrev pub groups : List Piece → List Text
groups [] = []
groups (plain c ∷ rest) = groups rest
groups (match u ∷ rest) = inner u ∷ groups rest

abbrev pub any_of : {A : Type 0} → (A → Bool) → List A → Bool
any_of p [] = false
any_of p (x ∷ xs) = p x || any_of p xs

abbrev pub all_of : {A : Type 0} → (A → Bool) → List A → Bool
all_of p [] = true
all_of p (x ∷ xs) = p x && all_of p xs

module _ (u : Unicode) where
  -- The loop over the lexicon: the terms that the sentence has as whole words.
  unfoldable pub matched_terms : Text → List (Text × ℕ) → List (Text × ℕ)
  matched_terms sentence [] = []
  matched_terms sentence ((term, weight) ∷ rest) =
      let later = matched_terms sentence rest in
      if search_in (seq (word_boundary u) (seq (literal term) (word_boundary u))) sentence
      then (term, weight) ∷ later
      else later

-- `term in q` for a term that is not empty.
abbrev pub in_quote : Text → Text → Bool
in_quote term quoted = search_in (literal term) quoted

-- Whether there are quotes, and all found terms are in some quote.
unfoldable pub all_in_quotes : List (Text × ℕ) → List Text → Bool
all_in_quotes terms [] = false
all_in_quotes terms (q ∷ quotes) = all_of (λ t. any_of (in_quote t.0) (q ∷ quotes)) terms

-- The two loops with `break`.
unfoldable pub is_meta : List (Text × ℕ) → Text → Bool
is_meta terms sentence =
    any_of (λ indicator. search_in (literal indicator) sentence) meta_indicators
    || all_in_quotes terms (groups (pieces quote_pattern sentence))

module _ (f : Floats) where
  -- `sum_weights`, from `total` on.
  unfoldable pub sum_weights : Bool → f.F → List (Text × ℕ) → f.F
  sum_weights meta total [] = total
  sum_weights meta total ((term, weight) ∷ rest) =
      sum_weights meta
        (f.add total
          (if meta then f.mul (f.hundredths weight) (f.hundredths 20) else f.hundredths weight))
        rest

  -- `min(1.0, x)`
  abbrev pub at_most_one : f.F → f.F
  at_most_one x = if f.less x (f.hundredths 100) then x else f.hundredths 100

  module _ (u : Unicode) (lower : Text → Text) where
    abbrev pub score_of : Text → List (Text × ℕ) → Option f.F
    score_of sentence [] = none
    score_of sentence (t ∷ terms) =
        some (at_most_one (sum_weights (is_meta (t ∷ terms) sentence) (f.hundredths 0) (t ∷ terms)))

    -- The body of the loop over the sentences; `none` is `continue`.
    unfoldable pub sentence_score : Text → Option f.F
    sentence_score sentence =
        score_of (lower sentence) (matched_terms u (lower sentence) toxic_lexicon)

    abbrev pub keep_larger : f.F → Option f.F → f.F
    keep_larger best none = best
    keep_larger best (some score) = larger f best score

    unfoldable pub max_sentence_score : f.F → List Text → f.F
    max_sentence_score best [] = best
    max_sentence_score best (sentence ∷ rest) =
        max_sentence_score (keep_larger best (sentence_score sentence)) rest

    -- `classify_toxicity`
    unfoldable pub classify_toxicity : Text → f.F × Bool
    classify_toxicity text =
        if is_empty text
        then (f.hundredths 0, false)
        else let max_score = max_sentence_score (f.hundredths 0) (split sentence_end text) in
          (f.round 2 max_score, not (f.less max_score (f.hundredths 50)))
