-- ===== src/Eval/Reply.antt =====
-- What is read of a judge's reply in a Markdown fence.
use llmgov.Base.{
  ℕ, ◌≡◌, refl, ap, sym, ◌∙◌, false, [], ◌∷◌, ◌++◌, Text, All, strip, lstrip, is_space, reverse,
}
use mathlib.Core.List.{reverse-append, reverse-reverse, append_assoc}
use llmgov.Floats.{Floats}
use llmgov.Lines.{is_break, fence, starts_with, unfence}
use llmgov.Lines.Fence.{IsPlain, unfence-body}
use llmgov.Eval.{Grader, grade_of}

lstrip-ink : (c : ℕ) (t : Text) → is_space c ≡ false → lstrip (c ∷ t) ≡ c ∷ t
unfolding lstrip
lstrip-ink c t h = rw h refl

-- A text between two characters that are not white space is stripped.
strip-ink :
    (c d : ℕ) (t : Text)
    → is_space c ≡ false
    → is_space d ≡ false
    → strip (c ∷ t ++ d ∷ []) ≡ c ∷ t ++ d ∷ []
unfolding strip
strip-ink c d t h k =
    let s : Text = c ∷ t ++ d ∷ [] in
    let e : reverse s ≡ d ∷ reverse (c ∷ t) = reverse-append (c ∷ t) (d ∷ []) in
    let kept : lstrip (reverse s) ≡ reverse s =
      ap lstrip e ∙ lstrip-ink d (reverse (c ∷ t)) k ∙ sym e in
    ap (λ t. reverse (lstrip (reverse t))) (lstrip-ink c (t ++ d ∷ []) h)
    ∙ ap reverse kept
    ∙ reverse-reverse s

abbrev pub fenced : Text → Text → Text
fenced info body = fence ++ (info ++ 10 ∷ (body ++ 10 ∷ fence))

strip-fenced : (info body : Text) → strip (fenced info body) ≡ fenced info body
unfolding is_space
strip-fenced info body =
    let inner : Text = b'`' ∷ b'`' ∷ (info ++ 10 ∷ (body ++ 10 ∷ b'`' ∷ b'`' ∷ [])) in
    let e : b'`' ∷ inner ++ b'`' ∷ [] ≡ fenced info body =
      ap (λ t. fence ++ t)
        (append_assoc info (10 ∷ (body ++ 10 ∷ b'`' ∷ b'`' ∷ [])) (b'`' ∷ [])
          ∙ ap (λ t. info ++ 10 ∷ t) (append_assoc body (10 ∷ b'`' ∷ b'`' ∷ []) (b'`' ∷ []))) in
    ap strip (sym e) ∙ strip-ink b'`' b'`' inner refl refl ∙ e

unfence-bare : (t : Text) → starts_with fence t ≡ false → unfence t ≡ t
unfolding unfence
unfence-bare t h = rw h refl

module _ {f : Floats} (g : Grader f) where
  -- A reply that is a body in a fence, behind any name of a language, is graded as the body alone,
  -- provided that no line of the name or the body ends otherwise than by a line feed, and that the
  -- body is not itself in a fence.
  pub grade_of-fenced :
      (info body : Text)
      → All (λ c. is_break c ≡ false) info
      → All IsPlain body
      → starts_with fence (strip body) ≡ false
      → grade_of g (fenced info body) ≡ grade_of g body
  unfolding grade_of
  grade_of-fenced info body plain_info plain bare =
      let whole : unfence (strip (fenced info body)) ≡ strip body =
        ap unfence (strip-fenced info body) ∙ unfence-body info body plain_info plain in
      let alone : unfence (strip body) ≡ strip body = unfence-bare (strip body) bare in
      rw (grade_of, whole, alone) refl
