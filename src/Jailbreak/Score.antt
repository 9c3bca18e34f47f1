-- ===== src/Jailbreak/Score.antt =====
-- When a prompt is flagged.
use llmgov.Base.{◌≡◌, true, List}
use llmgov.Floats.{Floats, IsOrder}
use llmgov.Jailbreak.{cosine_similarity}

module _ {f : Floats} (order : IsOrder f) (input : List f.F) (threshold : f.F) where
  abbrev pub IsBelow : List f.F → Type 0
  IsBelow reference = f.less (cosine_similarity f input reference) threshold ≡ true
