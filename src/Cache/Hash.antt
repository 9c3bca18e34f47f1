-- ===== src/Cache/Hash.antt =====
-- Which conversations share a hash: the text that is hashed joins roles and contents with `:` and
-- `|`, which roles and contents may hold themselves.

use llmgov.Base.{ℕ, ◌≡◌, ◌≢◌, refl, sym, List, [], ◌∷◌, ◌++◌, map, Text, Lacks, All, split_first}
use llmgov.Models.{ChatMessage}
use llmgov.Cache.{normalize, normalized_text}

abbrev pub normal_form : (Text → Text) → ChatMessage → ChatMessage
normal_form lower m = record { role = normalize lower m.role; content = normalize lower m.content }

-- No separator in what is hashed: no colon in the role and no bar in the content.
abbrev pub IsPlain : (Text → Text) → ChatMessage → Type 0
IsPlain lower m = Lacks b':' (normalize lower m.role) × Lacks b'|' (normalize lower m.content)

nil-ne-append : (s : Text) (c : ℕ) (t : Text) → [] ≢ s ++ c ∷ t
nil-ne-append [] c t e = cc
nil-ne-append (d ∷ s) c t e = cc

-- Conversations without separators in their roles and contents that are hashed as the same text
-- have the same messages in the same order, up to case and white space at the ends.
pub normalized_text_inj :
    (lower : Text → Text) (ms ms' : List ChatMessage)
    → All (IsPlain lower) ms
    → All (IsPlain lower) ms'
    → normalized_text lower ms ≡ normalized_text lower ms'
    → map (normal_form lower) ms ≡ map (normal_form lower) ms'
unfolding normalized_text
normalized_text_inj lower [] [] p p' e = refl
normalized_text_inj lower [] (m' ∷ ms') p p' e = absurd (nil-ne-append _ _ _ e)
normalized_text_inj lower (m ∷ ms) [] p p' e = absurd (nil-ne-append _ _ _ (sym e))
normalized_text_inj lower (m ∷ ms) (m' ∷ ms') p p' e =
    let (same_role, rest) = split_first b':' _ _ _ _ p.0.0 p'.0.0 e in
    let (same_content, rest') = split_first b'|' _ _ _ _ p.0.1 p'.0.1 rest in
    cc (same_role, same_content, normalized_text_inj lower ms ms' p.1 p'.1 rest')
