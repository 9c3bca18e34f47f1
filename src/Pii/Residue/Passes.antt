-- ===== src/Pii/Residue/Passes.antt =====
-- The pieces that a search finds, as a pass uses them.
use llmgov.Base.{
  ℕ, ◌≡◌, ◌∙◌, inl, inr, refl, sym, ap, Option, some, List, [], ◌∷◌, ◌++◌, map, Text, Bool-cases,
  if◌then◌else◌,
}
use llmgov.Unicode.{Unicode}
use llmgov.Regex.{Regex, Piece, plain, match, last_or, replaced}
use llmgov.Regex.Scan.{joined, Scanned, Scanned-joined}
use llmgov.Regex.Context.{StartsBy, EndsBy, Takes-StartsBy, Takes-EndsBy}
use llmgov.Pii.{credit_card, passes_luhn, redact_cards}
use llmgov.Pii.Residue.{Free, PlainFree, NotBoth, IsApart}

pub Scanned-PlainFree :
    (x : Regex) (b : Option ℕ) (s : Text) (ps : List Piece) → Scanned x b s ps → PlainFree x b ps
Scanned-PlainFree x b s [] h = tt
Scanned-PlainFree x b s (plain c ∷ ps) (t, e, nowhere, h) =
    let is : s ≡ joined (plain c ∷ ps) =
      e ∙ ap (λ r. c ∷ r) (sym (Scanned-joined x (some c) t ps h)) in
    ((λ v r e' k. nowhere v r (is ∙ e') k), Scanned-PlainFree x (some c) t ps h)
Scanned-PlainFree x b s (match m ∷ ps) (t, others, e, full, takes, first, h) =
    Scanned-PlainFree x (last_or b m) t ps h

Free-behind : (x : Regex) (b : Option ℕ) (m s : Text) → Free x b (m ++ s) → Free x (last_or b m) s
Free-behind x b [] s f = f
Free-behind x b (c ∷ m) s f = Free-behind x (some c) m s f.1

pub Free-PlainFree :
    (x : Regex) (b : Option ℕ) (ps : List Piece) → Free x b (joined ps) → PlainFree x b ps
Free-PlainFree x b [] f = tt
Free-PlainFree x b (plain c ∷ ps) f = (f.0, Free-PlainFree x (some c) ps f.1)
Free-PlainFree x b (match m ∷ ps) f =
    Free-PlainFree x (last_or b m) ps (Free-behind x b m (joined ps) f)

module _ (u : Unicode) where
  -- A pattern that asserts at both ends of a match that no two word characters meet there.
  abbrev pub IsFramed : Regex → Type 0
  IsFramed y = StartsBy (NotBoth u) y × EndsBy (NotBoth u) y

  pub Scanned-IsApart :
      (y : Regex) (b : Option ℕ) (s : Text) (ps : List Piece)
      → IsFramed y
      → Scanned y b s ps
      → IsApart u b ps
  Scanned-IsApart y b s [] framed h = tt
  Scanned-IsApart y b s (plain c ∷ ps) framed (t, e, nowhere, h) =
      Scanned-IsApart y (some c) t ps framed h
  Scanned-IsApart y b s (match m ∷ ps) framed (t, others, e, full, takes, first, h) =
      let is : joined ps ≡ t = Scanned-joined y (last_or b m) t ps h in
      (
        rw is (Takes-StartsBy (NotBoth u) y b m t framed.0 takes),
        rw is (Takes-EndsBy (NotBoth u) y b m t framed.1 takes),
        Scanned-IsApart y (last_or b m) t ps framed h,
      )

  -- The pieces of a search for cards of which the card numbers only are matches.
  unfoldable pub cards_of : List Piece → List Piece
  cards_of [] = []
  cards_of (plain c ∷ ps) = plain c ∷ cards_of ps
  cards_of (match m ∷ ps) =
      let rest = cards_of ps in if passes_luhn u m then match m ∷ rest else map plain m ++ rest

  joined-spelled : (m : Text) (ps : List Piece) → joined (map plain m ++ ps) ≡ m ++ joined ps
  joined-spelled [] ps = refl
  joined-spelled (c ∷ m) ps = ap (λ r. c ∷ r) (joined-spelled m ps)

  pub joined-cards_of : (ps : List Piece) → joined (cards_of ps) ≡ joined ps
  unfolding cards_of
  joined-cards_of [] = refl
  joined-cards_of (plain c ∷ ps) = ap (λ r. c ∷ r) (joined-cards_of ps)
  joined-cards_of (match m ∷ ps) = elim (Bool-cases (passes_luhn u m)) [
    | inl card ↦ rw card (ap (λ r. m ++ r) (joined-cards_of ps))
    | inr no_card ↦
        rw no_card (joined-spelled m (cards_of ps) ∙ ap (λ r. m ++ r) (joined-cards_of ps))
  ]

  IsApart-spelled :
      (b : Option ℕ) (m : Text) (ps : List Piece)
      → IsApart u (last_or b m) ps
      → IsApart u b (map plain m ++ ps)
  IsApart-spelled b [] ps h = h
  IsApart-spelled b (c ∷ m) ps h = IsApart-spelled (some c) m ps h

  pub cards_of-IsApart :
      (b : Option ℕ) (ps : List Piece) → IsApart u b ps → IsApart u b (cards_of ps)
  unfolding cards_of
  cards_of-IsApart b [] h = tt
  cards_of-IsApart b (plain c ∷ ps) h = cards_of-IsApart (some c) ps h
  cards_of-IsApart b (match m ∷ ps) h = elim (Bool-cases (passes_luhn u m)) [
    | inl card ↦ rw card (
      rw (joined-cards_of ps) h.0,
      rw (joined-cards_of ps) h.1,
      cards_of-IsApart (last_or b m) ps h.2,
    )
    | inr no_card ↦
        rw no_card (IsApart-spelled b m (cards_of ps) (cards_of-IsApart (last_or b m) ps h.2))
  ]

  replaced-spelled :
      (replacement m : Text) (ps : List Piece)
      → (replaced replacement (map plain m ++ ps)).0 ≡ m ++ (replaced replacement ps).0
  unfolding replaced
  replaced-spelled replacement [] ps = refl
  replaced-spelled replacement (c ∷ m) ps = ap (λ r. c ∷ r) (replaced-spelled replacement m ps)

  pub redact_cards-replaced :
      (ps : List Piece) → (redact_cards u ps).0 ≡ (replaced credit_card (cards_of ps)).0
  unfolding redact_cards cards_of replaced
  redact_cards-replaced [] = refl
  redact_cards-replaced (plain c ∷ ps) = ap (λ r. c ∷ r) (redact_cards-replaced ps)
  redact_cards-replaced (match m ∷ ps) = elim (Bool-cases (passes_luhn u m)) [
    | inl card ↦ rw card (ap (λ r. credit_card ++ r) (redact_cards-replaced ps))
    | inr no_card ↦ rw no_card (
        ap (λ r. m ++ r) (redact_cards-replaced ps)
        ∙ sym (replaced-spelled credit_card m (cards_of ps)))
  ]
