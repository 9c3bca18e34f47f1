-- ===== src/Regex.antt =====
-- The part of Python's `re` that app/core/pii.py and app/core/toxicity.py use: patterns over code
-- points, what they match in which order, and the search for matches from left to right.
pub mod Matches
pub mod Scan
pub mod Context
use llmgov.Base.{
  ◌==◌, ℕ, zero, suc, Bool, true, false, ◌&&◌, ◌||◌, not, Option, none, some, List, [], ◌∷◌, ◌++◌,
  map, Text, is_empty, length, if◌then◌else◌,
}

-- `look` is an assertion on the characters in front of a place and behind it; `many` is a class
-- under a greedy `*`, `few` one under a lazy `*?`.
pub data Regex : Type 0 where
  empty : Regex
  one many few : (ℕ → Bool) → Regex
  look : (Option ℕ → Option ℕ → Bool) → Regex
  seq alt : Regex → Regex → Regex

abbrev pub optional : Regex → Regex
optional x = alt x empty

abbrev pub plus : (ℕ → Bool) → Regex
plus p = seq (one p) (many p)

-- `x{n}`
unfoldable pub exactly : ℕ → Regex → Regex
exactly zero x = empty
exactly (suc n) x = seq x (exactly n x)

-- `x{0,n}`
unfoldable pub up_to : ℕ → Regex → Regex
up_to zero x = empty
up_to (suc n) x = optional (seq x (up_to n x))

-- A pattern without special characters, or escaped by `re.escape`.
unfoldable pub literal : Text → Regex
literal [] = empty
literal (c ∷ t) = seq (one (λ d. d == c)) (literal t)

abbrev pub head : Text → Option ℕ
head [] = none
head (c ∷ t) = some c

-- The character in front of what follows `u`.
abbrev pub last_or : Option ℕ → Text → Option ℕ
last_or before [] = before
last_or before (c ∷ u) = last_or (some c) u

-- A match of a prefix: what it takes, and the rest.
abbrev pub Split : Type 0
Split = Text × Text

abbrev pub push : ℕ → Split → Split
push c (u, t) = (c ∷ u, t)

abbrev pub prepend : Text → Split → Split
prepend v (u, t) = (v ++ u, t)

unfoldable pub longest_first : (ℕ → Bool) → Text → List Split
longest_first p [] = ([], []) ∷ []
longest_first p (c ∷ s) =
    let longer = map (push c) (longest_first p s) in
    if p c then longer ++ ([], c ∷ s) ∷ [] else ([], c ∷ s) ∷ []

unfoldable pub shortest_first : (ℕ → Bool) → Text → List Split
shortest_first p [] = ([], []) ∷ []
shortest_first p (c ∷ s) =
    let longer = map (push c) (shortest_first p s) in ([], c ∷ s) ∷ (if p c then longer else [])

unfoldable pub first_char : (ℕ → Bool) → Text → List Split
first_char p [] = []
first_char p (c ∷ s) = if p c then (c ∷ [], s) ∷ [] else []

-- The matches of a first part, each continued by those of a second.
unfoldable pub continued : (Text → Text → List Split) → List Split → List Split
continued f [] = []
continued f ((u, t) ∷ splits) = map (prepend u) (f u t) ++ continued f splits

-- The matches at the start of a text, in the order in which the engine tries them.
unfoldable pub splits : Regex → Option ℕ → Text → List Split
unfolding longest_first shortest_first first_char continued
splits empty before s = ([], s) ∷ []
splits (one p) before s = first_char p s
splits (many p) before s = longest_first p s
splits (few p) before s = shortest_first p s
splits (look f) before s = if f before (head s) then ([], s) ∷ [] else []
splits (seq x y) before s = continued (λ u t. splits y (last_or before u) t) (splits x before s)
splits (alt x y) before s = splits x before s ++ splits y before s

-- A text as a search for all matches sees it: characters outside of them, and the matches.
pub data Piece : Type 0 where
  plain : ℕ → Piece
  match : Text → Piece

-- The first match at a place, if one takes anything.
abbrev pub first_split : List Split → Option Split
first_split [] = none
first_split (([], t) ∷ rest) = none
first_split ((c ∷ u, t) ∷ rest) = some (c ∷ u, t)

abbrev pub add_piece : Piece → Option (List Piece) → Option (List Piece)
add_piece piece none = none
add_piece piece (some pieces) = some (piece ∷ pieces)

-- From left to right, going on behind each match; `none` means that the fuel ran out.
unfoldable pub scan : Regex → ℕ → Option ℕ → Text → Option (List Piece)
unfolding splits
scan x zero before s = none
scan x (suc fuel) before [] = some []
scan x (suc fuel) before (c ∷ s) = elim (first_split (splits x before (c ∷ s))) [
  | none ↦ add_piece (plain c) (scan x fuel (some c) s)
  | some (u, t) ↦ add_piece (match u) (scan x fuel (last_or before u) t)
]

abbrev pub pieces_or_none : Option (List Piece) → List Piece
pieces_or_none none = []
pieces_or_none (some pieces) = pieces

unfoldable pub pieces : Regex → Text → List Piece
unfolding scan
pieces x s = pieces_or_none (scan x (suc (length s)) none s)

-- `x.subn(replacement, s)`
unfoldable pub replaced : Text → List Piece → Text × ℕ
replaced replacement [] = ([], zero)
replaced replacement (plain c ∷ rest) =
    let (text, count) = replaced replacement rest in (c ∷ text, count)
replaced replacement (match u ∷ rest) =
    let (text, count) = replaced replacement rest in (replacement ++ text, suc count)

unfoldable pub subn : Regex → Text → Text → Text × ℕ
unfolding pieces replaced
subn x replacement s = replaced replacement (pieces x s)

-- `s.replace(old, replacement)` for an `old` that is not empty.
unfoldable pub replace : Text → Text → Text → Text
unfolding subn literal
replace old replacement s = (subn (literal old) replacement s).0

-- Whether `x.search(s)` finds anything.
abbrev pub any_match : List Piece → Bool
any_match [] = false
any_match (plain c ∷ rest) = any_match rest
any_match (match u ∷ rest) = true

unfoldable pub search_in : Regex → Text → Bool
unfolding pieces
search_in x s = any_match (pieces x s)

-- `re.split(x, s)`
unfoldable pub split_at : List Piece → Text × List Text
split_at [] = ([], [])
split_at (plain c ∷ rest) = let (part, parts) = split_at rest in (c ∷ part, parts)
split_at (match u ∷ rest) = let (part, parts) = split_at rest in ([], part ∷ parts)

unfoldable pub split : Regex → Text → List Text
unfolding pieces split_at
split x s = let (part, parts) = split_at (pieces x s) in part ∷ parts

-- `s.split(separator)` for a separator that is not empty.
unfoldable pub split_by : Text → Text → List Text
unfolding split literal
split_by separator s = split (literal separator) s
