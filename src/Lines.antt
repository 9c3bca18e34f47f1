-- ===== src/Lines.antt =====
-- The lines of a text, as Python's `str.splitlines`, `"\n".join` and `str.startswith` read them:
-- app/core/eval.py takes a judge's reply out of its Markdown fence with them.
pub mod Fence
use llmgov.Base.{
  ℕ, Bool, true, false, ◌&&◌, ◌||◌, List, [], ◌∷◌, ◌++◌, Text, codes, strip, ◌==◌, leb,
  if◌then◌else◌,
}

-- The line boundaries of `str.splitlines()`.
unfoldable pub is_break : ℕ → Bool
is_break c = (leb 10 c && leb c 13) || (leb 28 c && leb c 30) || c == 133 || c == 8232 || c == 8233

abbrev pub add_char : ℕ → List Text → List Text
add_char c [] = (c ∷ []) ∷ []
add_char c (line ∷ lines) = (c ∷ line) ∷ lines

-- The lines of what stands behind a carriage return (`true`), with which a line feed makes one
-- boundary, or behind anything else.
unfoldable pub lines_behind : Bool → Text → List Text
unfolding is_break
lines_behind after_cr [] = []
lines_behind after_cr (c ∷ t) =
    let rest = lines_behind (c == 13) t in
    if after_cr && c == 10 then rest else if is_break c then [] ∷ rest else add_char c rest

-- `text.splitlines()`
abbrev pub splitlines : Text → List Text
splitlines t = lines_behind false t

-- `"\n".join(lines)`
unfoldable pub join_lines : List Text → Text
join_lines [] = []
join_lines (line ∷ []) = line
join_lines (line ∷ next ∷ lines) = line ++ 10 ∷ join_lines (next ∷ lines)

unfoldable pub starts_with : Text → Text → Bool
starts_with [] t = true
starts_with (c ∷ prefix) [] = false
starts_with (c ∷ prefix) (d ∷ t) = c == d && starts_with prefix t

abbrev pub fence : Text
fence = codes "```"

-- `lines[0]` is a line: a text that starts with a fence has one.
unfoldable pub drop_first_fence : List Text → List Text
drop_first_fence [] = []
drop_first_fence (line ∷ lines) = if starts_with fence line then lines else line ∷ lines

unfoldable pub drop_last_fence : List Text → List Text
drop_last_fence [] = []
drop_last_fence (line ∷ []) = if starts_with fence line then [] else line ∷ []
drop_last_fence (line ∷ next ∷ lines) = line ∷ drop_last_fence (next ∷ lines)

-- The reply without its fence, if it starts with one.
unfoldable pub unfence : Text → Text
unfolding lines_behind join_lines starts_with drop_first_fence drop_last_fence
unfence cleaned =
    if starts_with fence cleaned
    then strip (join_lines (drop_last_fence (drop_first_fence (splitlines cleaned))))
    else cleaned
