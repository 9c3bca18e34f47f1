-- ===== src/Prompts/Render.antt =====
-- `PromptVersion.render` of app/core/prompt_registry.py: every `{{key}}` in the template is replaced,
-- one key after another.
pub mod Filled
use llmgov.Base.{ℕ, zero, suc, ◌-◌, List, [], ◌∷◌, ◌++◌, Text, codes, length, if◌then◌else◌}
use llmgov.Lines.{starts_with}
use llmgov.Prompts.{PromptVersion}

-- `t.replace(old, new)` for a text `old` that is not empty: from the left, and behind each
-- occurrence found the search goes on at its end; `skip` characters belong to one.
unfoldable pub replace_from : (old new : Text) (skip : ℕ) → Text → Text
unfolding starts_with
replace_from old new skip [] = []
replace_from old new (suc skip) (c ∷ t) = replace_from old new skip t
replace_from old new zero (c ∷ t) =
    let replaced = new ++ replace_from old new (length old - 1) t in
    let passed = c ∷ replace_from old new 0 t in
    if starts_with old (c ∷ t) then replaced else passed

-- `f"{{{{{key}}}}}"`
abbrev pub marker : Text → Text
marker key = b'{' ∷ b'{' ∷ (key ++ b'}' ∷ b'}' ∷ [])

-- The loop over `kwargs.items()`.
unfoldable pub render_text : List (Text × Text) → Text → Text
unfolding replace_from
render_text [] result = result
render_text ((key, value) ∷ rest) result =
    render_text rest (replace_from (marker key) value 0 result)

unfoldable pub render : {W : Type 0} → List (Text × Text) → PromptVersion W → Text
unfolding render_text
render kwargs version = render_text kwargs version.template_text
