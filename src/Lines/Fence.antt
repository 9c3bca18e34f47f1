-- ===== src/Lines/Fence.antt =====
-- What is read of a reply in a Markdown fence.
use llmgov.Base.{
  ℕ, Bool, true, false, ◌≡◌, ◌⊎◌, refl, ap, ◌∙◌, List, [], ◌∷◌, ◌++◌, Text, All, strip, ◌==◌, arith,
  inl, inr,
}
use llmgov.Lines.{
  is_break, add_char, lines_behind, join_lines, starts_with, fence, drop_first_fence,
  drop_last_fence, unfence,
}

-- A character that ends a line only if it is the line feed.
abbrev pub IsPlain : ℕ → Type 0
IsPlain c = (is_break c ≡ false) ⊎ (c ≡ 10)

abbrev is_some_line : List Text → Bool
is_some_line [] = false
is_some_line (line ∷ lines) = true

add_char-append :
    (c : ℕ) (lines : List Text) (last : Text)
    → is_some_line lines ≡ true
    → add_char c (lines ++ last ∷ []) ≡ add_char c lines ++ last ∷ []
add_char-append c [] last some = cc
add_char-append c (line ∷ lines) last some = refl

join_lines-add_char :
    (c : ℕ) (lines : List Text)
    → is_some_line lines ≡ true
    → join_lines (add_char c lines) ≡ c ∷ join_lines lines
unfolding join_lines
join_lines-add_char c [] some = cc
join_lines-add_char c (line ∷ []) some = refl
join_lines-add_char c (line ∷ next ∷ lines) some = refl

join_lines-empty :
    (lines : List Text)
    → is_some_line lines ≡ true
    → join_lines ([] ∷ lines) ≡ 10 ∷ join_lines lines
unfolding join_lines
join_lines-empty [] some = cc
join_lines-empty (line ∷ lines) some = refl

drop_last_fence-append :
    (lines : List Text) (line : Text)
    → starts_with fence line ≡ true
    → drop_last_fence (lines ++ line ∷ []) ≡ lines
unfolding drop_last_fence
drop_last_fence-append [] line h = rw h refl
drop_last_fence-append (first ∷ []) line h = ap (λ t. first ∷ t) (drop_last_fence-append [] line h)
drop_last_fence-append (first ∷ next ∷ lines) line h =
    ap (λ t. first ∷ t) (drop_last_fence-append (next ∷ lines) line h)

-- The lines of a body in front of a line with no boundary in it: that line last, and lines in front
-- that make the body again.
record IsBody (body : Text) (last : Text) : Type 0 where
  lines : List Text
  cut : lines_behind false (body ++ 10 ∷ last) ≡ lines ++ last ∷ []
  joined : join_lines lines ≡ body
  full : is_some_line lines ≡ true

add_line : {body last : Text} → IsBody body last → IsBody (10 ∷ body) last
unfolding lines_behind is_break
add_line b = record {
  lines = [] ∷ b.lines;
  cut = ap (λ lines. [] ∷ lines) b.cut;
  joined = join_lines-empty b.lines b.full ∙ ap (λ t. 10 ∷ t) b.joined;
  full = refl;
}

plain_char : (c : ℕ) → is_break c ≡ false → (c == 13) ≡ false
unfolding is_break
plain_char c h = ground arith

lines_behind-plain :
    (c : ℕ) (t : Text)
    → is_break c ≡ false
    → lines_behind false (c ∷ t) ≡ add_char c (lines_behind false t)
unfolding lines_behind
lines_behind-plain c t h = rw h (rw (plain_char c h) refl)

add_char-full :
    (c : ℕ) (lines : List Text) → is_some_line lines ≡ true → is_some_line (add_char c lines) ≡ true
add_char-full c [] some = cc
add_char-full c (line ∷ lines) some = refl

add_plain :
    {body last : Text} (c : ℕ) → is_break c ≡ false → IsBody body last → IsBody (c ∷ body) last
add_plain {body} {last} c h b = record {
  lines = add_char c b.lines;
  cut =
      lines_behind-plain c (body ++ 10 ∷ last) h
      ∙ ap (add_char c) b.cut
      ∙ add_char-append c b.lines last b.full;
  joined = join_lines-add_char c b.lines b.full ∙ ap (λ t. c ∷ t) b.joined;
  full = add_char-full c b.lines b.full;
}

lines_behind-IsBody :
    (body last : Text) → All IsPlain body → lines_behind false last ≡ last ∷ [] → IsBody body last
unfolding lines_behind is_break join_lines
lines_behind-IsBody [] last h one = record {
  lines = [] ∷ [];
  cut = ap (λ lines. [] ∷ lines) one;
  joined = refl;
  full = refl;
}
lines_behind-IsBody (c ∷ body) last h one =
    let rest = lines_behind-IsBody body last h.1 one in
    elim h.0 [ inl plain ↦ add_plain c plain rest | inr feed ↦ rw feed (add_line rest) ]

-- The line of the opening fence is the first.
lines_behind-info :
    (info t : Text)
    → All (λ c. is_break c ≡ false) info
    → (first : ℕ) → is_break first ≡ false
    → lines_behind false (first ∷ info ++ 10 ∷ t) ≡ (first ∷ info) ∷ lines_behind false t
unfolding is_break lines_behind
lines_behind-info [] t h first f = lines_behind-plain first (10 ∷ t) f
lines_behind-info (c ∷ info) t h first f =
    lines_behind-plain first ((c ∷ info) ++ 10 ∷ t) f
    ∙ ap (add_char first) (lines_behind-info info t h.1 c h.0)

unfence-lines :
    (t info : Text) (lines : List Text)
    → starts_with fence t ≡ true
    → starts_with fence info ≡ true
    → lines_behind false t ≡ info ∷ lines ++ fence ∷ []
    → unfence t ≡ strip (join_lines lines)
unfolding unfence drop_first_fence
unfence-lines t info lines opened first cut =
    rw opened (rw cut (rw first (rw (drop_last_fence-append lines fence refl) refl)))

fence_line : lines_behind false fence ≡ fence ∷ []
unfolding lines_behind is_break
fence_line = refl

-- A reply that stands in a fence, behind a line with any name of a language, is read as what is in
-- the fence, stripped, whatever it is, provided that it has no boundary of a line but line feeds.
pub unfence-body :
    (info body : Text)
    → All (λ c. is_break c ≡ false) info
    → All IsPlain body
    → unfence (fence ++ (info ++ 10 ∷ (body ++ 10 ∷ fence))) ≡ strip body
unfolding starts_with is_break
unfence-body info body h plain =
    let b = lines_behind-IsBody body fence plain fence_line in
    let first : lines_behind false (fence ++ (info ++ 10 ∷ (body ++ 10 ∷ fence)))
        ≡ (fence ++ info) ∷ lines_behind false (body ++ 10 ∷ fence) =
      lines_behind-info (b'`' ∷ b'`' ∷ info) (body ++ 10 ∷ fence) (refl, (refl, h)) b'`' refl in
    let cut : lines_behind false (fence ++ (info ++ 10 ∷ (body ++ 10 ∷ fence)))
        ≡ (fence ++ info) ∷ b.lines ++ fence ∷ [] =
      first ∙ ap (λ lines. (fence ++ info) ∷ lines) b.cut in
    unfence-lines (fence ++ (info ++ 10 ∷ (body ++ 10 ∷ fence))) (fence ++ info) b.lines refl refl
      cut
    ∙ ap strip b.joined
