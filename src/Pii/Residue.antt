-- ===== src/Pii/Residue.antt =====
-- Texts in which a pattern takes nothing, and what a pass that puts a token in brackets in the place
-- of some pieces makes of them.
pub mod Passes
use llmgov.Base.{
  ℕ, ◌≡◌, ◌≢◌, ◌⊎◌, ◌∙◌, inl, inr, refl, sym, ap, Bool, true, false, not, Option, none, some, List,
  [], ◌∷◌, ◌++◌, Text, All, Lacks, Bool-cases, if◌then◌else◌, head-eq, tail-eq,
}
use llmgov.Unicode.{Unicode, is_word}
use llmgov.Regex.{Regex, Piece, plain, match, head, last_or, replaced}
use llmgov.Regex.Matches.{Takes}
use llmgov.Regex.Scan.{joined}
use llmgov.Regex.Context.{LooksBy, MadeOf, Carries, Takes-Carries, Takes-MadeOf}

append_nil : (s : Text) → s ++ [] ≡ s
append_nil [] = refl
append_nil (c ∷ s) = ap (λ r. c ∷ r) (append_nil s)

-- The pattern takes nothing anywhere in a text.
abbrev pub Free : Regex → Option ℕ → Text → Type 0
Free x b [] = Unit
Free x b (c ∷ s) = ((v r : Text) → c ∷ s ≡ v ++ r → ¬ Takes x b v r) × Free x (some c) s

-- It takes nothing at the characters between the pieces that are matches.
abbrev pub PlainFree : Regex → Option ℕ → List Piece → Type 0
PlainFree x b [] = Unit
PlainFree x b (plain c ∷ ps) =
    ((v r : Text) → joined (plain c ∷ ps) ≡ v ++ r → ¬ Takes x b v r) × PlainFree x (some c) ps
PlainFree x b (match m ∷ ps) = PlainFree x (last_or b m) ps

abbrev pub IsNoBracket : ℕ → Type 0
IsNoBracket c = (c ≢ b'[') × (c ≢ b']')

module _ (u : Unicode) where
  -- `\b`, as an assertion.
  abbrev pub boundary : Option ℕ → Option ℕ → Bool
  boundary b a = if is_word u b then not (is_word u a) else is_word u a

  abbrev pub NotBoth : Option ℕ → Option ℕ → Type 0
  NotBoth b a = is_word u b ≡ true → is_word u a ≡ false

  -- No match has word characters on both sides of either of its ends.
  abbrev pub IsApart : Option ℕ → List Piece → Type 0
  IsApart b [] = Unit
  IsApart b (plain c ∷ ps) = IsApart (some c) ps
  IsApart b (match m ∷ ps) =
      NotBoth b (head (m ++ joined ps))
      × NotBoth (last_or b m) (head (joined ps))
      × IsApart (last_or b m) ps

  boundary_before :
      (b a : Option ℕ) (c : ℕ)
      → u.word c ≡ false
      → NotBoth b a
      → boundary b (some c) ≡ true
      → boundary b a ≡ true
  boundary_before b a c w apart h = elim (Bool-cases (is_word u b)) [
    | inl word ↦ rw (word, apart word) refl
    | inr no_word ↦ (let h' : u.word c ≡ true = rw no_word at h in cc (w, h'))
  ]

  boundary_behind :
      (b a : Option ℕ) (c : ℕ)
      → u.word c ≡ false
      → NotBoth b a
      → boundary (some c) a ≡ true
      → boundary b a ≡ true
  boundary_behind b a c w apart h =
      let after : is_word u a ≡ true = rw w at h in
      elim (Bool-cases (is_word u b)) [
        | inl word ↦ cc (apart word, after)
        | inr no_word ↦ rw no_word after
      ]

  -- What is relied on of a pattern: its assertions are all `\b`, it takes no brackets, and nothing
  -- without a given character.
  pub record IsMarkedBy (mark : ℕ) (x : Regex) : Type 0 where
    pub looks : LooksBy boundary x
    pub made : MadeOf IsNoBracket x
    pub needs : (b : Option ℕ) (v a : Text) → Takes x b v a → ¬ Lacks mark v

  module _ (opens : u.word b'[' ≡ false) (closes : u.word b']' ≡ false) (mark : ℕ) (x : Regex)
      (known : IsMarkedBy mark x) (inner : Text) (unmarked : Lacks mark inner) where
    abbrev token : Text
    token = b'[' ∷ (inner ++ b']' ∷ [])

    abbrev out : List Piece → Text
    out ps = (replaced token ps).0

    -- What is taken from the result is taken between two matches.
    follow :
        (ps : List Piece) (b : Option ℕ) (v r : Text)
        → IsApart b ps
        → out ps ≡ v ++ r
        → All IsNoBracket v
        → (ps' : List Piece) × (joined ps ≡ v ++ joined ps')
          × (r ≡ out ps')
          × IsApart (last_or b v) ps'
    unfolding replaced
    follow ps b [] r apart e a = (ps, refl, sym e, apart)
    follow [] b (d ∷ v) r apart e a = cc e
    follow (plain c ∷ ps) b (d ∷ v) r apart e a =
        let same : c ≡ d = head-eq e in
        let (ps', j, is, apart') = follow ps (some d) v r (rw same at apart) (tail-eq e) a.1 in
        (ps', cc (same, j), is, apart')
    follow (match m ∷ ps) b (d ∷ v) r apart e a = absurd (a.0.0 (sym (head-eq e)))

    ends :
        (ps : List Piece) (b : Option ℕ)
        → IsApart b ps
        → boundary b (head (out ps)) ≡ true
        → boundary b (head (joined ps)) ≡ true
    unfolding replaced
    ends [] b apart h = h
    ends (plain c ∷ ps) b apart h = h
    ends (match m ∷ ps) b apart h = boundary_before b (head (m ++ joined ps)) b'[' opens apart.0 h

    -- In the token itself nothing is taken.
    inside :
        (p s v r : Text)
        → Lacks mark p
        → (p ++ b']' ∷ []) ++ s ≡ v ++ r
        → All IsNoBracket v
        → Lacks mark v
    inside p s [] r l e a = tt
    inside [] s (d ∷ v) r l e a = absurd (a.0.1 (sym (head-eq e)))
    inside (c ∷ p) s (d ∷ v) r l e a =
        let same : c ≡ d = head-eq e in ((λ h. l.0 (same ∙ h)), inside p s v r l.1 (tail-eq e) a.1)

    token-Free :
        (p s : Text) (b : Option ℕ)
        → Lacks mark p
        → Free x (some b']') s
        → Free x b ((p ++ b']' ∷ []) ++ s)
    token-Free [] s b l f = (
      (λ v r e t.
          known.needs b v r t
            (inside [] s v r l e (Takes-MadeOf IsNoBracket x b v r known.made t))),
      f,
    )
    token-Free (c ∷ p) s b l f = (
      (λ v r e t.
          known.needs b v r t
            (inside (c ∷ p) s v r l e (Takes-MadeOf IsNoBracket x b v r known.made t))),
      token-Free p s (some c) l.1 f,
    )

    -- The text in front of a piece in the result: as in the original, or the end of a token.
    abbrev Starts : (b b' : Option ℕ) → List Piece → Type 0
    Starts b b' ps = (b' ≡ b) ⊎ ((b' ≡ some b']') × NotBoth b (head (joined ps)))

    from_start :
        (b b' : Option ℕ) (c : ℕ) (ps : List Piece)
        → Starts b b' (plain c ∷ ps)
        → boundary b' (some c) ≡ true
        → boundary b (some c) ≡ true
    from_start b b' c ps (inl e) h = rw (← e) h
    from_start b b' c ps (inr (e, apart)) h =
        boundary_behind b (some c) b']' closes apart (rw e at h)

    carried :
        (b b' : Option ℕ) (c : ℕ) (v : Text) (ps ps' : List Piece)
        → Starts b b' (plain c ∷ ps)
        → IsApart (last_or (some c) v) ps'
        → Carries boundary (c ∷ v) b' b (out ps') (joined ps')
    carried b b' c v ps ps' starts apart [] [] e h = cc e
    carried b b' c v ps ps' starts apart [] (d ∷ w) e h =
        let same : c ≡ d = head-eq e in rw (← same) (from_start b b' c ps starts (rw (← same) at h))
    carried b b' c v ps ps' starts apart (d ∷ v1) (d' ∷ w) e h = h
    carried b b' c v ps ps' starts apart (d ∷ v1) [] e h =
        let same : c ≡ d = head-eq e in
        let rest : v ≡ v1 = tail-eq e ∙ append_nil v1 in
        ends ps' (last_or (some d) v1) (rw (same, rest) at apart) h

    -- What a pattern does not take between the matches, it does not take in the result.
    pub out-Free :
        (ps : List Piece) (b b' : Option ℕ)
        → IsApart b ps
        → PlainFree x b ps
        → Starts b b' ps
        → Free x b' (out ps)
    unfolding replaced
    out-Free [] b b' apart free starts = tt
    out-Free (plain c ∷ ps) b b' apart free starts =
        (taken, out-Free ps (some c) (some c) apart free.1 (inl refl))
      where
        taken : (v r : Text) → c ∷ out ps ≡ v ++ r → ¬ Takes x b' v r
        taken [] r e t = known.needs b' [] r t tt
        taken (d ∷ v) r e t =
            let made = Takes-MadeOf IsNoBracket x b' (d ∷ v) r known.made t in
            let same : c ≡ d = head-eq e in
            let (ps', j, is, apart') = follow (plain c ∷ ps) b (d ∷ v) r apart e made in
            free.0 (d ∷ v) (joined ps') j (
              Takes-Carries boundary x (d ∷ v) b' b (out ps') (joined ps') known.looks
                (carried b b' d v ps ps' (rw same at starts) apart') (rw is at t))
    out-Free (match m ∷ ps) b b' apart free starts = (
      nothing,
      token-Free inner (out ps) (some b'[') unmarked
          (out-Free ps (last_or b m) (some b']') apart.2 free (inr (refl, apart.1))),
    )
      where
        nothing : (v r : Text) → token ++ out ps ≡ v ++ r → ¬ Takes x b' v r
        nothing [] r e t = known.needs b' [] r t tt
        nothing (d ∷ v) r e t =
            (Takes-MadeOf IsNoBracket x b' (d ∷ v) r known.made t).0.0 (sym (head-eq e))
