-- ===== src/Regex/Context.antt =====
-- How a match depends on what stands around it, and which characters it is made of.
use mathlib.Core.List.{append_assoc}
use llmgov.Base.{
  ℕ, ◌≡◌, inl, inr, refl, ap, sym, ◌∙◌, Bool, true, Option, some, [], ◌∷◌, ◌++◌, Text, All,
  All-append,
}
use llmgov.Regex.{Regex, empty, one, many, few, look, seq, alt, head, last_or}
use llmgov.Regex.Matches.{Satisfies, Takes}

-- Every assertion in the pattern is this one.
abbrev pub LooksBy : (Option ℕ → Option ℕ → Bool) → Regex → Type 0
LooksBy f (look g) = (b a : Option ℕ) → g b a ≡ f b a
LooksBy f (seq x y) = LooksBy f x × LooksBy f y
LooksBy f (alt x y) = LooksBy f x × LooksBy f y
LooksBy f _ = Unit

pub last_or-append : (b : Option ℕ) (v w : Text) → last_or b (v ++ w) ≡ last_or (last_or b v) w
last_or-append b [] w = refl
last_or-append b (c ∷ v) w = last_or-append (some c) v w

-- Where the assertion holds inside of a text it holds there in another context too.
abbrev pub Carries : (Option ℕ → Option ℕ → Bool) → Text → (b b' : Option ℕ) (a a' : Text) → Type 0
Carries f u b b' a a' =
    (v w : Text)
    → u ≡ v ++ w
    → f (last_or b v) (head (w ++ a)) ≡ true
    → f (last_or b' v) (head (w ++ a')) ≡ true

-- A text that is taken in one context is taken in the other.
pub Takes-Carries :
    (f : Option ℕ → Option ℕ → Bool) (x : Regex) (u : Text) (b b' : Option ℕ) (a a' : Text)
    → LooksBy f x
    → Carries f u b b' a a'
    → Takes x b u a
    → Takes x b' u a'
Takes-Carries f empty u b b' a a' l c h = h
Takes-Carries f (one p) u b b' a a' l c h = h
Takes-Carries f (many p) u b b' a a' l c h = h
Takes-Carries f (few p) u b b' a a' l c h = h
Takes-Carries f (look g) u b b' a a' l c (e, h) =
    (e, l b' (head a') ∙ c [] [] e (sym (l b (head a)) ∙ h))
Takes-Carries f (seq x y) u b b' a a' l c (v, w, e, h, k) = (
  v,
  w,
  e,
  Takes-Carries f x v b b' (w ++ a) (w ++ a') l.0
      (λ v1 v2 e' t. rw (← append_assoc v2 w a') (
        c v1 (v2 ++ w) (e ∙ ap (λ r. r ++ w) e' ∙ append_assoc v1 v2 w)
          (rw (append_assoc v2 w a) t)))
      h,
  Takes-Carries f y w (last_or b v) (last_or b' v) a a' l.1
      (λ w1 w2 e' t. rw (← last_or-append b' v w1) (
        c (v ++ w1) w2 (e ∙ ap (λ r. v ++ r) e' ∙ sym (append_assoc v w1 w2))
          (rw (last_or-append b v w1) t)))
      k,
)
Takes-Carries f (alt x y) u b b' a a' l c (inl h) = inl (Takes-Carries f x u b b' a a' l.0 c h)
Takes-Carries f (alt x y) u b b' a a' l c (inr h) = inr (Takes-Carries f y u b b' a a' l.1 c h)

-- Every character that the pattern takes is of a kind.
abbrev pub MadeOf : (ℕ → Type 0) → Regex → Type 0
MadeOf P (one p) = (c : ℕ) → p c ≡ true → P c
MadeOf P (many p) = (c : ℕ) → p c ≡ true → P c
MadeOf P (few p) = (c : ℕ) → p c ≡ true → P c
MadeOf P (seq x y) = MadeOf P x × MadeOf P y
MadeOf P (alt x y) = MadeOf P x × MadeOf P y
MadeOf P _ = Unit

All-Satisfies :
    (P : ℕ → Type 0) (p : ℕ → Bool) (u : Text)
    → ((c : ℕ) → p c ≡ true → P c)
    → All (Satisfies p) u
    → All P u
All-Satisfies P p [] m h = tt
All-Satisfies P p (c ∷ u) m h = (m c h.0, All-Satisfies P p u m h.1)

pub Takes-MadeOf :
    (P : ℕ → Type 0) (x : Regex) (b : Option ℕ) (u a : Text) → MadeOf P x → Takes x b u a → All P u
Takes-MadeOf P empty b u a m h = rw h tt
Takes-MadeOf P (one p) b u a m (c, e, h) = rw e (m c h, tt)
Takes-MadeOf P (many p) b u a m h = All-Satisfies P p u m h
Takes-MadeOf P (few p) b u a m h = All-Satisfies P p u m h
Takes-MadeOf P (look f) b u a m (e, h) = rw e tt
Takes-MadeOf P (seq x y) b u a m (v, w, e, h, k) = rw e (
    All-append P v w (Takes-MadeOf P x b v (w ++ a) m.0 h)
      (Takes-MadeOf P y (last_or b v) w a m.1 k))
Takes-MadeOf P (alt x y) b u a m (inl h) = Takes-MadeOf P x b u a m.0 h
Takes-MadeOf P (alt x y) b u a m (inr h) = Takes-MadeOf P y b u a m.1 h

-- The assertion that a pattern ends with.
abbrev pub EndsBy : (Option ℕ → Option ℕ → Type 0) → Regex → Type 0
EndsBy Q (look g) = (b a : Option ℕ) → g b a ≡ true → Q b a
EndsBy Q (seq x y) = EndsBy Q y
EndsBy Q (alt x y) = EndsBy Q x × EndsBy Q y
EndsBy Q _ = ⊥

pub Takes-EndsBy :
    (Q : Option ℕ → Option ℕ → Type 0) (x : Regex) (b : Option ℕ) (u a : Text)
    → EndsBy Q x
    → Takes x b u a
    → Q (last_or b u) (head a)
Takes-EndsBy Q empty b u a q h = absurd q
Takes-EndsBy Q (one p) b u a q h = absurd q
Takes-EndsBy Q (many p) b u a q h = absurd q
Takes-EndsBy Q (few p) b u a q h = absurd q
Takes-EndsBy Q (look g) b u a q (e, h) = rw e (q b (head a) h)
Takes-EndsBy Q (seq x y) b u a q (v, w, e, h, k) =
    rw (e, last_or-append b v w) (Takes-EndsBy Q y (last_or b v) w a q k)
Takes-EndsBy Q (alt x y) b u a q (inl h) = Takes-EndsBy Q x b u a q.0 h
Takes-EndsBy Q (alt x y) b u a q (inr h) = Takes-EndsBy Q y b u a q.1 h

-- The assertion that a pattern starts with.
abbrev pub StartsBy : (Option ℕ → Option ℕ → Type 0) → Regex → Type 0
StartsBy Q (look g) = (b a : Option ℕ) → g b a ≡ true → Q b a
StartsBy Q (seq x y) = StartsBy Q x
StartsBy Q (alt x y) = StartsBy Q x × StartsBy Q y
StartsBy Q _ = ⊥

pub Takes-StartsBy :
    (Q : Option ℕ → Option ℕ → Type 0) (x : Regex) (b : Option ℕ) (u a : Text)
    → StartsBy Q x
    → Takes x b u a
    → Q b (head (u ++ a))
Takes-StartsBy Q empty b u a q h = absurd q
Takes-StartsBy Q (one p) b u a q h = absurd q
Takes-StartsBy Q (many p) b u a q h = absurd q
Takes-StartsBy Q (few p) b u a q h = absurd q
Takes-StartsBy Q (look g) b u a q (e, h) = rw e (q b (head a) h)
Takes-StartsBy Q (seq x y) b u a q (v, w, e, h, k) =
    rw (e, append_assoc v w a) (Takes-StartsBy Q x b v (w ++ a) q h)
Takes-StartsBy Q (alt x y) b u a q (inl h) = Takes-StartsBy Q x b u a q.0 h
Takes-StartsBy Q (alt x y) b u a q (inr h) = Takes-StartsBy Q y b u a q.1 h
