-- ===== src/Toxicity/Flagged.antt =====
-- When a text is flagged as toxic.
use llmgov.Base.{◌≡◌, true, Option, none, some, Text}
use llmgov.Floats.{Floats, IsOrder}
use llmgov.Unicode.{Unicode}
use llmgov.Toxicity.{sentence_score}

module _ {f : Floats} (order : IsOrder f) (u : Unicode) (lower : Text → Text) where
  -- A sentence that has no toxic term, or a score below the threshold.
  abbrev pub IsBelow : f.F → Option f.F → Type 0
  IsBelow threshold none = Unit
  IsBelow threshold (some score) = f.less score threshold ≡ true

  abbrev pub IsMild : Text → Type 0
  IsMild sentence = IsBelow (f.hundredths 50) (sentence_score f u lower sentence)
