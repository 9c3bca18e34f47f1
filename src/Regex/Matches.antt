-- ===== src/Regex/Matches.antt =====
-- What it means for a pattern to take a text between two others, with no search order in it, and
-- that the matches tried are exactly these.
use mathlib.Core.List.{append_assoc}
use llmgov.Base.{
  ℕ, ◌≡◌, ◌⊎◌, inl, inr, refl, ap, sym, ◌∙◌, Bool, true, Option, List, [], ◌∷◌, ◌++◌, map, Text,
  All, All-append, Bool-cases,
}
use llmgov.Regex.{
  Regex, empty, one, many, few, look, seq, alt, head, last_or, Split, push, prepend, longest_first,
  shortest_first, continued, splits,
}

abbrev pub Satisfies : (ℕ → Bool) → ℕ → Type 0
Satisfies p c = p c ≡ true

-- `x` takes `u` where `before` stands in front of it and `after` follows.
abbrev pub Takes : Regex → Option ℕ → Text → Text → Type 0
Takes empty before u after = u ≡ []
Takes (one p) before u after = (c : ℕ) × (u ≡ c ∷ []) × (p c ≡ true)
Takes (many p) before u after = All (Satisfies p) u
Takes (few p) before u after = All (Satisfies p) u
Takes (look f) before u after = (u ≡ []) × (f before (head after) ≡ true)
Takes (seq x y) before u after =
    (v : Text) × (w : Text) × (u ≡ v ++ w)
    × Takes x before v (w ++ after)
    × Takes y (last_or before v) w after
Takes (alt x y) before u after = Takes x before u after ⊎ Takes y before u after

-- A prefix that `x` takes.
abbrev pub IsSplit : Regex → Option ℕ → Text → Split → Type 0
IsSplit x before s (u, t) = (s ≡ u ++ t) × Takes x before u t

abbrev pub Among : {A : Type 0} → A → List A → Type 0
Among a [] = ⊥
Among a (b ∷ rest) = (a ≡ b) ⊎ Among a rest

pub Among-append_left : {A : Type 0} (a : A) (xs ys : List A) → Among a xs → Among a (xs ++ ys)
Among-append_left a [] ys m = absurd m
Among-append_left a (x ∷ xs) ys (inl e) = inl e
Among-append_left a (x ∷ xs) ys (inr m) = inr (Among-append_left a xs ys m)

pub Among-append_right : {A : Type 0} (a : A) (xs ys : List A) → Among a ys → Among a (xs ++ ys)
Among-append_right a [] ys m = m
Among-append_right a (x ∷ xs) ys m = inr (Among-append_right a xs ys m)

pub Among-map :
    {A B : Type 0} (f : A → B) (a : A) (xs : List A) → Among a xs → Among (f a) (map f xs)
Among-map f a [] m = absurd m
Among-map f a (x ∷ xs) (inl e) = inl (ap f e)
Among-map f a (x ∷ xs) (inr m) = inr (Among-map f a xs m)

All-imp {ℓ κ μ} :
    {A : Type ℓ} (P : A → Type κ) (Q : A → Type μ) (xs : List A)
    → ((x : A) → P x → Q x)
    → All P xs
    → All Q xs
All-imp P Q [] h a = tt
All-imp P Q (x ∷ xs) h a = (h x a.0, All-imp P Q xs h a.1)

All-map_of {ℓ κ μ ν} :
    {A : Type ℓ} {B : Type κ} (P : A → Type μ) (Q : B → Type ν) (f : A → B) (xs : List A)
    → ((x : A) → P x → Q (f x))
    → All P xs
    → All Q (map f xs)
All-map_of P Q f [] h a = tt
All-map_of P Q f (x ∷ xs) h a = (h x a.0, All-map_of P Q f xs h a.1)

module _ (p : ℕ → Bool) where
  abbrev IsRun : Text → Split → Type 0
  IsRun s (u, t) = (s ≡ u ++ t) × All (Satisfies p) u

  push-IsRun :
      (c : ℕ) (s : Text)
      → p c ≡ true
      → (split : Split) → IsRun s split
      → IsRun (c ∷ s) (push c split)
  push-IsRun c s h (u, t) (e, a) = (ap (λ r. c ∷ r) e, (h, a))

  longest_first-IsRun : (s : Text) → All (IsRun s) (longest_first p s)
  unfolding longest_first
  longest_first-IsRun [] = ((refl, tt), tt)
  longest_first-IsRun (c ∷ s) = elim (Bool-cases (p c)) [
    | inl h ↦ rw h (
        All-append (IsRun (c ∷ s)) (map (push c) (longest_first p s)) (([], c ∷ s) ∷ [])
          (All-map_of (IsRun s) (IsRun (c ∷ s)) (push c) (longest_first p s) (push-IsRun c s h)
            (longest_first-IsRun s))
          ((refl, tt), tt))
    | inr h ↦ rw h ((refl, tt), tt)
  ]

  shortest_first-IsRun : (s : Text) → All (IsRun s) (shortest_first p s)
  unfolding shortest_first
  shortest_first-IsRun [] = ((refl, tt), tt)
  shortest_first-IsRun (c ∷ s) = elim (Bool-cases (p c)) [
    | inl h ↦ rw h (
      (refl, tt),
      All-map_of (IsRun s) (IsRun (c ∷ s)) (push c) (shortest_first p s) (push-IsRun c s h)
          (shortest_first-IsRun s),
    )
    | inr h ↦ rw h ((refl, tt), tt)
  ]

  longest_first-All : (u t : Text) → All (Satisfies p) u → Among (u, t) (longest_first p (u ++ t))
  unfolding longest_first
  longest_first-All [] [] a = inl refl
  longest_first-All [] (c ∷ t) a = elim (Bool-cases (p c)) [
    | inl h ↦ rw h (Among-append_right ([], c ∷ t) (map (push c) (longest_first p t)) _ (inl refl))
    | inr h ↦ rw h (inl refl)
  ]
  longest_first-All (c ∷ u) t a = rw a.0 (
      Among-append_left (c ∷ u, t) (map (push c) (longest_first p (u ++ t))) _
        (Among-map (push c) (u, t) (longest_first p (u ++ t)) (longest_first-All u t a.1)))

  shortest_first-All : (u t : Text) → All (Satisfies p) u → Among (u, t) (shortest_first p (u ++ t))
  unfolding shortest_first
  shortest_first-All [] [] a = inl refl
  shortest_first-All [] (c ∷ t) a = inl refl
  shortest_first-All (c ∷ u) t a =
      rw a.0
        (inr (Among-map (push c) (u, t) (shortest_first p (u ++ t)) (shortest_first-All u t a.1)))

module _ (x y : Regex) (before : Option ℕ) (s : Text)
    (later : (b : Option ℕ) (r : Text) → All (IsSplit y b r) (splits y b r)) where
  continued-IsSplit :
      (firsts : List Split)
      → All (IsSplit x before s) firsts
      → All (IsSplit (seq x y) before s) (continued (λ u t. splits y (last_or before u) t) firsts)
  unfolding continued
  continued-IsSplit [] a = tt
  continued-IsSplit ((u, t) ∷ rest) ((e, h), a) =
      All-append (IsSplit (seq x y) before s) (map (prepend u) (splits y (last_or before u) t)) _
        (All-map_of (IsSplit y (last_or before u) t) (IsSplit (seq x y) before s) (prepend u)
          (splits y (last_or before u) t) joined (later (last_or before u) t))
        (continued-IsSplit rest a)
    where
      joined :
          (split : Split)
          → IsSplit y (last_or before u) t split
          → IsSplit (seq x y) before s (prepend u split)
      joined (v, w) (e', k) =
          (e ∙ (ap (λ r. u ++ r) e' ∙ sym (append_assoc u v w)), (u, v, refl, rw (← e') h, k))

-- Every match that is tried takes a prefix of the text as the pattern says.
pub splits-IsSplit :
    (x : Regex) (before : Option ℕ) (s : Text) → All (IsSplit x before s) (splits x before s)
unfolding splits
splits-IsSplit empty before s = ((refl, refl), tt)
splits-IsSplit (one p) before [] = tt
splits-IsSplit (one p) before (c ∷ s) = elim (Bool-cases (p c)) [
  | inl h ↦ rw h ((refl, (c, refl, h)), tt)
  | inr h ↦ rw h tt
]
splits-IsSplit (many p) before s = longest_first-IsRun p s
splits-IsSplit (few p) before s = shortest_first-IsRun p s
splits-IsSplit (look f) before s = elim (Bool-cases (f before (head s))) [
  | inl h ↦ rw h ((refl, (refl, h)), tt)
  | inr h ↦ rw h tt
]
splits-IsSplit (seq x y) before s =
    continued-IsSplit x y before s (λ b r. splits-IsSplit y b r) (splits x before s)
      (splits-IsSplit x before s)
splits-IsSplit (alt x y) before s =
    All-append (IsSplit (alt x y) before s) (splits x before s) (splits y before s)
      (All-imp (IsSplit x before s) (IsSplit (alt x y) before s) (splits x before s)
        (λ split h. (h.0, inl h.1)) (splits-IsSplit x before s))
      (All-imp (IsSplit y before s) (IsSplit (alt x y) before s) (splits y before s)
        (λ split h. (h.0, inr h.1)) (splits-IsSplit y before s))

continued_all :
    (f : Text → Text → List Split) (v w r t : Text) (firsts : List Split)
    → Among (v, r) firsts
    → Among (w, t) (f v r)
    → Among (v ++ w, t) (continued f firsts)
unfolding continued
continued_all f v w r t [] m k = absurd m
continued_all f v w r t ((v', r') ∷ firsts) (inl e) k =
    rw (← ap (λ p. p.0) e, ← ap (λ p. p.1) e)
      (Among-append_left (v ++ w, t) (map (prepend v) (f v r)) _
        (Among-map (prepend v) (w, t) (f v r) k))
continued_all f v w r t ((v', r') ∷ firsts) (inr m) k =
    Among-append_right (v ++ w, t) (map (prepend v') (f v' r')) _
      (continued_all f v w r t firsts m k)

-- Every prefix that the pattern takes is tried.
pub splits_all :
    (x : Regex) (before : Option ℕ) (u t : Text)
    → Takes x before u t
    → Among (u, t) (splits x before (u ++ t))
unfolding splits
splits_all empty before u t h = rw h (inl refl)
splits_all (one p) before u t (c, e, h) = rw e (rw h (inl refl))
splits_all (many p) before u t h = longest_first-All p u t h
splits_all (few p) before u t h = shortest_first-All p u t h
splits_all (look f) before u t (e, h) = rw e (rw h (inl refl))
splits_all (seq x y) before u t (v, w, e, h, k) = rw e (
    rw append_assoc (
      continued_all (λ u t. splits y (last_or before u) t) v w (w ++ t) t
        (splits x before (v ++ (w ++ t))) (splits_all x before v (w ++ t) h)
        (splits_all y (last_or before v) w t k)))
splits_all (alt x y) before u t (inl h) =
    Among-append_left (u, t) (splits x before (u ++ t)) (splits y before (u ++ t))
      (splits_all x before u t h)
splits_all (alt x y) before u t (inr h) =
    Among-append_right (u, t) (splits x before (u ++ t)) (splits y before (u ++ t))
      (splits_all y before u t h)
