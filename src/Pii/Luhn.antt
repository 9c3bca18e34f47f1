-- ===== src/Pii/Luhn.antt =====
-- The Luhn check finds every mistake in a single digit.
use mathlib.Core.List.{append_assoc, reverse-append}
use llmgov.Base.{
  ℕ, ◌+◌, ◌%◌, ◌<◌, ◌≡◌, refl, ap, sym, ◌∙◌, Bool, true, false, not, List, [], ◌∷◌, ◌++◌, map,
  reverse, arith, if◌then◌else◌,
}
use llmgov.Pii.{every_other, without_first, sum, doubled, luhn_total, luhn_valid}

-- The total over the digits from the last one on; `double` is whether the first of them is doubled.
abbrev weigh : Bool → ℕ → ℕ
weigh double d = if double then doubled d else d

weighed : Bool → List ℕ → ℕ
weighed double [] = 0
weighed double (d ∷ rest) = weigh double d + weighed (not double) rest

every_other_cons : (c : ℕ) (ds : List ℕ) → every_other (c ∷ ds) ≡ c ∷ every_other (without_first ds)
unfolding every_other
every_other_cons c [] = refl
every_other_cons c (d ∷ ds) = refl

alternate :
    (ds : List ℕ)
    → sum (every_other ds) + sum (map doubled (every_other (without_first ds))) ≡ weighed false ds
unfolding every_other weighed
alternate [] = refl
alternate (d ∷ []) = omega arith
alternate (d ∷ c ∷ ds) = rw (every_other_cons c ds) (omega (arith, alternate ds))

weigh_inj :
    (double : Bool) (d c t : ℕ)
    → d < 10
    → c < 10
    → (weigh double d + t) % 10 ≡ (weigh double c + t) % 10
    → d ≡ c
weigh_inj false d c t h k e = omega arith
weigh_inj true d c t h k e = omega arith

weighed_inj :
    (double : Bool) (before : List ℕ) (d c : ℕ) (after : List ℕ)
    → d < 10
    → c < 10
    → weighed double (before ++ d ∷ after) % 10 ≡ weighed double (before ++ c ∷ after) % 10
    → d ≡ c
unfolding weighed
weighed_inj double [] d c after h k e = weigh_inj double d c _ h k e
weighed_inj double (x ∷ before) d c after h k e =
    weighed_inj (not double) before d c after h k (omega arith)

reverse-middle :
    (s : List ℕ) (d : ℕ) (t : List ℕ) → reverse (s ++ d ∷ t) ≡ reverse t ++ d ∷ reverse s
reverse-middle s d t =
    reverse-append s (d ∷ t)
    ∙ ap (λ ds. ds ++ reverse s) (reverse-append (d ∷ []) t)
    ∙ append_assoc (reverse t) (d ∷ []) (reverse s)

valid_total : (ds : List ℕ) → luhn_valid ds ≡ true → weighed false (reverse ds) % 10 ≡ 0
unfolding luhn_valid luhn_total
valid_total ds h = rw (← alternate (reverse ds)) (ground (arith, h))

-- Two valid card numbers never differ in exactly one digit: where the digits in front of a place
-- and behind it are the same, the digits there are the same.
pub luhn_valid-finds_one_digit :
    (s : List ℕ) (d c : ℕ) (t : List ℕ)
    → d < 10
    → c < 10
    → luhn_valid (s ++ d ∷ t) ≡ true
    → luhn_valid (s ++ c ∷ t) ≡ true
    → d ≡ c
luhn_valid-finds_one_digit s d c t h k v w =
    weighed_inj false (reverse t) d c (reverse s) h k (
      rw (← reverse-middle s d t, ← reverse-middle s c t) (valid_total _ v ∙ sym (valid_total _ w)))
