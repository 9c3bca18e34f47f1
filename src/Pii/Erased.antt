-- ===== src/Pii/Erased.antt =====
-- What the passes of `redact_pii` leave of a text: email addresses and social security numbers.
use llmgov.Base.{
  ℕ, ◌≡◌, inl, refl, ap, Bool, true, false, not, ◌&&◌, ◌==◌, Option, none, [], ◌∷◌, ◌++◌, Text,
  codes, Lacks, arith, if◌then◌else◌,
}
use llmgov.Unicode.{Unicode, is_word, is_digit}
use llmgov.Regex.{Regex, pieces, subn, exactly, up_to}
use llmgov.Regex.Matches.{Takes}
use llmgov.Regex.Scan.{consumes, pieces-Scanned, joined-pieces}
use llmgov.Pii.{redact_pii, redact_cards}
use llmgov.Pii.Patterns.{email_regex, ssn_regex, credit_card_regex, phone_regex, ipv4_regex}
use llmgov.Pii.Search.{patterns_consume}
use llmgov.Pii.Residue.{Free, NotBoth, IsMarkedBy, IsNoBracket, out-Free}
use llmgov.Pii.Residue.Passes.{
  IsFramed, Scanned-PlainFree, Free-PlainFree, Scanned-IsApart, cards_of, joined-cards_of,
  cards_of-IsApart, redact_cards-replaced,
}

Lacks-behind : (c : ℕ) (v w : Text) → Lacks c (v ++ w) → Lacks c w
Lacks-behind c [] w h = h
Lacks-behind c (d ∷ v) w h = Lacks-behind c v w h.1

excludes : (p : ℕ → Bool) → p b'[' ≡ false → p b']' ≡ false → (c : ℕ) → p c ≡ true → IsNoBracket c
excludes p opens closes c h = ((λ e. cc (ap p e, h, opens)), (λ e. cc (ap p e, h, closes)))

abbrev lacks : ℕ → Text → Bool
lacks c [] = true
lacks c (d ∷ t) = not (d == c) && lacks c t

lacks-Lacks : (c : ℕ) (t : Text) → lacks c t ≡ true → Lacks c t
lacks-Lacks c [] h = tt
lacks-Lacks c (d ∷ t) h = (ground (arith, h), lacks-Lacks c t (ground (arith, h)))

module _ (u : Unicode) where
  -- A text with a character behind its first two parts.
  marked :
      (m c : ℕ) (v v0 w0 v1 w1 v2 w2 : Text)
      → v ≡ v0 ++ w0
      → w0 ≡ v1 ++ w1
      → w1 ≡ v2 ++ w2
      → v2 ≡ c ∷ []
      → (c == m) ≡ true
      → ¬ Lacks m v
  marked m c v v0 w0 v1 w1 v2 w2 e0 e1 e2 e3 is l =
      let behind : Lacks m w1 =
        Lacks-behind m v1 w1 (rw e1 at (Lacks-behind m v0 w0 (rw e0 at l))) in
      let first : Lacks m (c ∷ w2) = rw (e2, e3) at behind in first.0 (ground (arith, is))

  email_needs : (b : Option ℕ) (v a : Text) → Takes (email_regex u) b v a → ¬ Lacks b'@' v
  unfolding email_regex
  email_needs b v a (v0, w0, e0, h0, (v1, w1, e1, h1, (v2, w2, e2, (c, e3, is), k))) =
      marked b'@' c v v0 w0 v1 w1 v2 w2 e0 e1 e2 e3 is

  email-IsMarkedBy : IsMarkedBy u b'@' (email_regex u)
  unfolding email_regex
  email-IsMarkedBy = record {
    looks = ((λ b a. refl), ((tt, tt), (tt, ((tt, tt), (tt, (tt, (tt, (tt, (λ b a. refl)))))))));
    made = (
      tt,
      (
        (excludes _ refl refl, excludes _ refl refl),
        (
          excludes _ refl refl,
          (
            (excludes _ refl refl, excludes _ refl refl),
            (
              excludes _ refl refl,
              (excludes _ refl refl, (excludes _ refl refl, (excludes _ refl refl, tt))),
            ),
          ),
        ),
      ),
    );
    needs = unfold email_regex in email_needs;
  }

  ssn_needs : (b : Option ℕ) (v a : Text) → Takes (ssn_regex u) b v a → ¬ Lacks b'-' v
  unfolding ssn_regex exactly
  ssn_needs b v a (v0, w0, e0, h0, (v1, w1, e1, h1, (v2, w2, e2, (c, e3, is), k))) =
      marked b'-' c v v0 w0 v1 w1 v2 w2 e0 e1 e2 e3 is

  ssn-IsMarkedBy :
      is_digit u b'[' ≡ false → is_digit u b']' ≡ false → IsMarkedBy u b'-' (ssn_regex u)
  unfolding ssn_regex exactly
  ssn-IsMarkedBy opens closes =
      let digit = excludes (is_digit u) opens closes in
      let dash = excludes (λ d. d == b'-') refl refl in
      record {
        looks = (
          (λ b a. refl),
          (
            (tt, (tt, (tt, tt))),
            (tt, ((tt, (tt, tt)), (tt, ((tt, (tt, (tt, (tt, tt)))), (λ b a. refl))))),
          ),
        );
        made = (
          tt,
          (
            (digit, (digit, (digit, tt))),
            (dash, ((digit, (digit, tt)), (dash, ((digit, (digit, (digit, (digit, tt)))), tt)))),
          ),
        );
        needs = unfold ssn_regex exactly in ssn_needs;
      }

  apart_at_boundary :
      (b a : Option ℕ)
      → (if is_word u b then not (is_word u a) else is_word u a) ≡ true
      → NotBoth u b a
  apart_at_boundary b a h w = ground (arith, h, w)

  ssn-IsFramed : IsFramed u (ssn_regex u)
  unfolding ssn_regex exactly
  ssn-IsFramed = (apart_at_boundary, apart_at_boundary)

  card-IsFramed : IsFramed u (credit_card_regex u)
  unfolding credit_card_regex exactly up_to
  card-IsFramed = (apart_at_boundary, apart_at_boundary)

  email-IsFramed : IsFramed u (email_regex u)
  unfolding email_regex
  email-IsFramed = (apart_at_boundary, apart_at_boundary)

  phone-IsFramed : IsFramed u (phone_regex u)
  unfolding phone_regex exactly up_to
  phone-IsFramed = ((λ b a h w. ground (arith, h, w)), (λ b a h w. ground (arith, h, w)))

  ipv4-IsFramed : IsFramed u (ipv4_regex u)
  unfolding ipv4_regex exactly
  ipv4-IsFramed = (apart_at_boundary, apart_at_boundary)

  module _ (opens : u.word b'[' ≡ false) (closes : u.word b']' ≡ false) (mark : ℕ) (x : Regex)
      (known : IsMarkedBy u mark x) where
    -- A pass with another pattern leaves nothing for this one where there is nothing.
    pass-Free :
        (y : Regex) (inner s : Text)
        → consumes y ≡ true
        → IsFramed u y
        → lacks mark inner ≡ true
        → Free x none s
        → Free x none (subn y (b'[' ∷ (inner ++ b']' ∷ [])) s).0
    unfolding subn
    pass-Free y inner s k framed unmarked free =
        out-Free u opens closes mark x known inner (lacks-Lacks mark inner unmarked) (pieces y s)
          none none (Scanned-IsApart u y none s (pieces y s) framed (pieces-Scanned y s k).1)
          (Free-PlainFree x none (pieces y s) (rw (joined-pieces y s k) free)) (inl refl)

    -- The pattern's own pass leaves nothing for it.
    own_pass-Free :
        (inner s : Text)
        → consumes x ≡ true
        → IsFramed u x
        → lacks mark inner ≡ true
        → Free x none (subn x (b'[' ∷ (inner ++ b']' ∷ [])) s).0
    unfolding subn
    own_pass-Free inner s k framed unmarked =
        let scanned = (pieces-Scanned x s k).1 in
        out-Free u opens closes mark x known inner (lacks-Lacks mark inner unmarked) (pieces x s)
          none none (Scanned-IsApart u x none s (pieces x s) framed scanned)
          (Scanned-PlainFree x none s (pieces x s) scanned) (inl refl)

    redact_cards-Free :
        (s : Text)
        → consumes (credit_card_regex u) ≡ true
        → lacks mark (codes "CREDIT_CARD") ≡ true
        → Free x none s
        → Free x none (redact_cards u (pieces (credit_card_regex u) s)).0
    redact_cards-Free s k unmarked free =
        let ps = pieces (credit_card_regex u) s in
        rw (redact_cards-replaced u ps) (
          out-Free u opens closes mark x known (codes "CREDIT_CARD")
            (lacks-Lacks mark (codes "CREDIT_CARD") unmarked) (cards_of u ps) none none
            (cards_of-IsApart u none ps (
              Scanned-IsApart u (credit_card_regex u) none s ps card-IsFramed
                (pieces-Scanned (credit_card_regex u) s k).1))
            (Free-PlainFree x none (cards_of u ps)
              (rw (joined-cards_of u ps, joined-pieces (credit_card_regex u) s k) free))
            (inl refl))

    last_passes-Free :
        (s : Text)
        → lacks mark (codes "CREDIT_CARD") ≡ true
        → lacks mark (codes "PHONE") ≡ true
        → lacks mark (codes "IP_ADDRESS") ≡ true
        → Free x none s
        → let no_cards = (redact_cards u (pieces (credit_card_regex u) s)).0 in
          Free x none
            (subn
              (ipv4_regex u)
              (codes "[IP_ADDRESS]")
              (subn (phone_regex u) (codes "[PHONE]") no_cards).0).0
    last_passes-Free s in_card in_phone in_address free =
        let (email, (ssn, (card, (phone, (ipv4, end))))) = patterns_consume u in
        pass-Free (ipv4_regex u) (codes "IP_ADDRESS") _ ipv4 ipv4-IsFramed in_address (
          pass-Free (phone_regex u) (codes "PHONE") _ phone phone-IsFramed in_phone
            (redact_cards-Free s card in_card free))

  -- Brackets are no word characters and no digits.
  pub record AreBrackets : Type 0 where
    pub open_word : u.word b'[' ≡ false
    pub close_word : u.word b']' ≡ false
    pub open_digit : is_digit u b'[' ≡ false
    pub close_digit : is_digit u b']' ≡ false

  -- No email address and no social security number is left in a redacted text: at no place in it
  -- does the pattern for either take anything, whatever the text was, also where later passes have
  -- put their tokens into it. Brackets are taken to be no word characters and no digits.
  pub redact_pii-Free :
      (text : Text)
      → AreBrackets
      → Free (email_regex u) none (redact_pii u text).0
        × Free (ssn_regex u) none (redact_pii u text).0
  unfolding redact_pii
  redact_pii-Free [] brackets = (tt, tt)
  redact_pii-Free (c ∷ text) brackets =
      let opens = brackets.open_word in
      let closes = brackets.close_word in
      let ssn_known = ssn-IsMarkedBy brackets.open_digit brackets.close_digit in
      let (email, (ssn, others)) = patterns_consume u in
      (
        last_passes-Free opens closes b'@' (email_regex u) email-IsMarkedBy _ refl refl refl (
            pass-Free opens closes b'@' (email_regex u) email-IsMarkedBy (ssn_regex u) (codes "SSN")
              _ ssn ssn-IsFramed refl
              (own_pass-Free opens closes b'@' (email_regex u) email-IsMarkedBy (codes "EMAIL")
                (c ∷ text) email email-IsFramed refl)),
        last_passes-Free opens closes b'-' (ssn_regex u) ssn_known _ refl refl refl (
            own_pass-Free opens closes b'-' (ssn_regex u) ssn_known (codes "SSN") _ ssn ssn-IsFramed
              refl),
      )
