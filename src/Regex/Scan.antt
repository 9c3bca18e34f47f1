-- ===== src/Regex/Scan.antt =====
-- The search for all matches ends, and what it finds.
use llmgov.Base.{
  ℕ, zero, suc, ◌<◌, ◌≡◌, ◌⊎◌, inl, inr, refl, ap, sym, ◌∙◌, Bool, true, false, ◌&&◌, ◌||◌, Option,
  none, some, List, [], ◌∷◌, ◌++◌, Text, is_empty, All, Bool-cases, arith, length, length-append,
}
use llmgov.Regex.{
  Regex, empty, one, many, few, look, seq, alt, last_or, Split, splits, first_split, Piece, plain,
  match, scan, pieces, replaced, subn,
}
use llmgov.Regex.Matches.{Takes, IsSplit, Among, splits-IsSplit, splits_all}

-- A pattern of which a look at its form shows that it never takes the empty text.
unfoldable pub consumes : Regex → Bool
consumes (one p) = true
consumes (seq x y) = consumes x || consumes y
consumes (alt x y) = consumes x && consumes y
consumes empty = false
consumes (many p) = false
consumes (few p) = false
consumes (look f) = false

append_nonempty :
    (v w : Text) → (is_empty v ≡ false) ⊎ (is_empty w ≡ false) → is_empty (v ++ w) ≡ false
append_nonempty [] w (inl h) = cc
append_nonempty [] w (inr h) = h
append_nonempty (c ∷ v) w h = refl

consumes-Takes :
    (x : Regex) (before : Option ℕ) (u after : Text)
    → consumes x ≡ true
    → Takes x before u after
    → is_empty u ≡ false
unfolding consumes
consumes-Takes empty before u after k h = cc
consumes-Takes (one p) before u after k (c, e, h) = rw e refl
consumes-Takes (many p) before u after k h = cc
consumes-Takes (few p) before u after k h = cc
consumes-Takes (look f) before u after k h = cc
consumes-Takes (seq x y) before u after k (v, w, e, h, g) = elim (Bool-cases (consumes x)) [
  | inl first ↦ rw e (append_nonempty v w (inl (consumes-Takes x before v (w ++ after) first h)))
  | inr not_first ↦ rw e (
      append_nonempty v w (inr (consumes-Takes y (last_or before v) w after (rw not_first at k) g)))
]
consumes-Takes (alt x y) before u after k (inl h) = consumes-Takes x before u after (ground arith) h
consumes-Takes (alt x y) before u after k (inr h) = consumes-Takes y before u after (ground arith) h

shorter : (u t : Text) → is_empty u ≡ false → length t < length (u ++ t)
shorter [] t h = cc
shorter (c ∷ u) t h = omega (arith, length-append u t)

-- What the first split of a text is, and what it means that there is none.
record IsFirst (x : Regex) (before : Option ℕ) (s : Text) (split : Split) : Type 0 where
  is_split : IsSplit x before s split
  nonempty : is_empty split.0 ≡ false
  others : List Split
  first : splits x before s ≡ split ∷ others

module _ (x : Regex) (k : consumes x ≡ true) (before : Option ℕ) (s : Text) where
  first_of :
      (list : List Split)
      → All (IsSplit x before s) list
      → (list ≡ [])
        ⊎ ((split : Split) × (others : List Split) × (first_split list ≡ some split)
            × (list ≡ split ∷ others)
            × IsSplit x before s split
            × (is_empty split.0 ≡ false))
  first_of [] a = inl refl
  first_of (([], t) ∷ rest) a =
      absurd (let h : is_empty [] ≡ false = consumes-Takes x before [] t k a.0.1 in cc)
  first_of ((c ∷ u, t) ∷ rest) a = inr ((c ∷ u, t), rest, refl, refl, a.0, refl)

  -- The search takes the first match that is tried, or there is none at this place.
  splits_cases :
      ((first_split (splits x before s) ≡ none)
        × ((u t : Text) → s ≡ u ++ t → ¬ Takes x before u t))
      ⊎ ((split : Split) × (first_split (splits x before s) ≡ some split)
          × IsFirst x before s split)
  splits_cases = elim (first_of (splits x before s) (splits-IsSplit x before s)) [
    | inl nothing ↦ inl (
      rw nothing refl,
      λ u t e h.
          let there : Among (u, t) (splits x before s) = rw e (splits_all x before u t h) in
          rw nothing at there,
    )
    | inr (split, others, is, first, found, full) ↦
        inr
          (split, is, record { is_split = found; nonempty = full; others = others; first = first })
  ]

-- The pieces of a text, from left to right: a character outside of a match is one where no match
-- starts, and a match is the first one that is tried where it starts.
abbrev pub Scanned : Regex → Option ℕ → Text → List Piece → Type 0
Scanned x before s [] = s ≡ []
Scanned x before s (plain c ∷ rest) =
    (t : Text) × (s ≡ c ∷ t)
    × ((u r : Text) → s ≡ u ++ r → ¬ Takes x before u r)
    × Scanned x (some c) t rest
Scanned x before s (match u ∷ rest) =
    (t : Text) × (others : List Split) × (s ≡ u ++ t)
    × (is_empty u ≡ false)
    × Takes x before u t
    × (splits x before s ≡ (u, t) ∷ others)
    × Scanned x (last_or before u) t rest

scan-Scanned :
    (x : Regex)
    → consumes x ≡ true
    → (fuel : ℕ) (before : Option ℕ) (s : Text) → length s < fuel
    → (found : List Piece) × (scan x fuel before s ≡ some found) × Scanned x before s found
unfolding scan
scan-Scanned x k zero before s h = absurd (omega arith)
scan-Scanned x k (suc fuel) before [] h = ([], refl, refl)
scan-Scanned x k (suc fuel) before (c ∷ s) h = elim (splits_cases x k before (c ∷ s)) [
  | inl (nothing, nowhere) ↦
      let (found, is, scanned) = scan-Scanned x k fuel (some c) s (omega arith) in
      (plain c ∷ found, rw (nothing, scan) (rw is refl), (s, refl, nowhere, scanned))
  | inr ((u, t), first_is, first) ↦
      let less : length t < fuel =
        omega (arith, ap length first.is_split.0, shorter u t first.nonempty) in
      let (found, is, scanned) = scan-Scanned x k fuel (last_or before u) t less in
      (
        match u ∷ found,
        rw (first_is, scan) (rw is refl),
        (t, first.others, first.is_split.0, first.nonempty, first.is_split.1, first.first, scanned),
      )
]

-- For a pattern that never takes the empty text the search always ends, with fuel one above the
-- text's length, and the pieces that it finds are those of the text.
pub pieces-Scanned :
    (x : Regex) (s : Text)
    → consumes x ≡ true
    → (scan x (suc (length s)) none s ≡ some (pieces x s)) × Scanned x none s (pieces x s)
unfolding pieces
pieces-Scanned x s k =
    let (found, is, scanned) = scan-Scanned x k (suc (length s)) none s (omega arith) in
    rw is (refl, scanned)

abbrev pub joined : List Piece → Text
joined [] = []
joined (plain c ∷ rest) = c ∷ joined rest
joined (match u ∷ rest) = u ++ joined rest

pub Scanned-joined :
    (x : Regex) (before : Option ℕ) (s : Text) (found : List Piece)
    → Scanned x before s found
    → joined found ≡ s
Scanned-joined x before s [] h = sym h
Scanned-joined x before s (plain c ∷ rest) (t, e, nowhere, h) =
    rw e (ap (λ r. c ∷ r) (Scanned-joined x (some c) t rest h))
Scanned-joined x before s (match u ∷ rest) (t, others, e, full, takes, first, h) =
    rw e (ap (λ r. u ++ r) (Scanned-joined x (last_or before u) t rest h))

pub joined-pieces : (x : Regex) (s : Text) → consumes x ≡ true → joined (pieces x s) ≡ s
joined-pieces x s k = Scanned-joined x none s (pieces x s) (pieces-Scanned x s k).1

replaced-none :
    (replacement : Text) (found : List Piece)
    → (replaced replacement found).1 ≡ 0
    → (replaced replacement found).0 ≡ joined found
unfolding replaced
replaced-none replacement [] h = refl
replaced-none replacement (plain c ∷ rest) h = ap (λ r. c ∷ r) (replaced-none replacement rest h)
replaced-none replacement (match u ∷ rest) h = absurd (omega arith)

-- A substitution that finds nothing leaves the text as it is.
pub subn-none :
    (x : Regex) (replacement s : Text)
    → consumes x ≡ true
    → (subn x replacement s).1 ≡ 0
    → (subn x replacement s).0 ≡ s
unfolding subn
subn-none x replacement s k h = replaced-none replacement (pieces x s) h ∙ joined-pieces x s k
