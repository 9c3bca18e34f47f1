-- ===== src/Base/Strings.antt =====
-- Texts as lists of code points, their equality test, decimal numerals, and unique splitting at a
-- separator.
use Prim.Native.Char.{code}
use Prim.Native.String.{String}
use Prim.Native.Nat.{ℕ, zero, suc, ◌+◌, ◌-◌, ◌*◌, ◌/◌, ◌%◌, ◌<◌}
use mathlib.Core.Path.{◌≡◌, refl, ap, sym, ◌∙◌}
use mathlib.Core.Logic.{◌≢◌, ◌↔◌, inl, inr}
use mathlib.Core.Bool.{Bool, true, false, ◌&&◌, ◌||◌}
use mathlib.Core.List.{List, [], ◌∷◌, ◌++◌, reverse, foldl, foldl-append}
use native.Mathlib.Omega.{arith}
use llmgov.Base.Tests.{ltb, leb, ◌==◌, if◌then◌else◌, Bool-cases}
use llmgov.Base.Lists.{All}

abbrev pub Text : Type 0
Text = List ℕ

-- The code points of a literal.
abbrev pub codes : String → Text
codes String.[] = []
codes (String.◌∷◌ c s) = code c ∷ codes s

unfoldable pub text_eq : Text → Text → Bool
text_eq [] [] = true
text_eq [] (d ∷ t) = false
text_eq (c ∷ s) [] = false
text_eq (c ∷ s) (d ∷ t) = c == d && text_eq s t

pub text_eq_sound : (s t : Text) → text_eq s t ≡ true → s ≡ t
unfolding text_eq
text_eq_sound [] [] h = refl
text_eq_sound [] (d ∷ t) h = cc
text_eq_sound (c ∷ s) [] h = cc
text_eq_sound (c ∷ s) (d ∷ t) h = ground (arith, text_eq_sound s t)

pub text_eq_refl : (s : Text) → text_eq s s ≡ true
unfolding text_eq
text_eq_refl [] = refl
text_eq_refl (c ∷ s) = ground (arith, text_eq_refl s)

pub text_eq_iff : (s t : Text) → (text_eq s t ≡ true) ↔ (s ≡ t)
text_eq_iff s t = (text_eq_sound s t, λ e. rw e (text_eq_refl t))

abbrev pub is_empty : Text → Bool
is_empty [] = true
is_empty (c ∷ s) = false

-- `c` does not occur in the text.
abbrev pub Lacks : ℕ → Text → Type 0
Lacks c = All (λ d. d ≢ c)

pub Lacks-append : (c : ℕ) (s t : Text) → Lacks c s → Lacks c t → Lacks c (s ++ t)
Lacks-append c [] t hs ht = ht
Lacks-append c (d ∷ s) t hs ht = (hs.0, Lacks-append c s t hs.1 ht)

not-Lacks-append : (c : ℕ) (s t : Text) → ¬ Lacks c (s ++ c ∷ t)
not-Lacks-append c [] t h = h.0 refl
not-Lacks-append c (d ∷ s) t h = not-Lacks-append c s t h.1

pub head-eq : {c d : ℕ} {s t : Text} → c ∷ s ≡ d ∷ t → c ≡ d
head-eq e = cc

pub tail-eq : {c d : ℕ} {s t : Text} → c ∷ s ≡ d ∷ t → s ≡ t
tail-eq e = cc

pub append_cancel_left : (s t u : Text) → s ++ t ≡ s ++ u → t ≡ u
append_cancel_left [] t u e = e
append_cancel_left (c ∷ s) t u e = append_cancel_left s t u (tail-eq e)

-- A separator that the parts in front lack splits a text in one way only.
pub split_first :
    (c : ℕ) (s s' t t' : Text)
    → Lacks c s
    → Lacks c s'
    → s ++ c ∷ t ≡ s' ++ c ∷ t'
    → (s ≡ s') × (t ≡ t')
split_first c [] [] t t' h h' e = (refl, tail-eq e)
split_first c [] (d ∷ s') t t' h h' e = absurd (h'.0 (sym (head-eq e)))
split_first c (d ∷ s) [] t t' h h' e = absurd (h.0 (head-eq e))
split_first c (d ∷ s) (d' ∷ s') t t' h h' e =
    let rest = split_first c s s' t t' h.1 h'.1 (tail-eq e) in (cc (head-eq e, rest.0), rest.1)

-- So does a separator that the parts behind lack.
pub split_last :
    (c : ℕ) (s s' t t' : Text)
    → Lacks c t
    → Lacks c t'
    → s ++ c ∷ t ≡ s' ++ c ∷ t'
    → (s ≡ s') × (t ≡ t')
split_last c [] [] t t' h h' e = (refl, tail-eq e)
split_last c [] (d ∷ s') t t' h h' e =
    absurd (not-Lacks-append c s' t' (let e' : t ≡ s' ++ c ∷ t' = tail-eq e in rw e' at h))
split_last c (d ∷ s) [] t t' h h' e =
    absurd (not-Lacks-append c s t (let e' : s ++ c ∷ t ≡ t' = tail-eq e in rw (← e') at h'))
split_last c (d ∷ s) (d' ∷ s') t t' h h' e =
    let rest = split_last c s s' t t' h h' (tail-eq e) in (cc (head-eq e, rest.0), rest.1)

-- Python's `str` of a number, on fuel.
numeral : ℕ → ℕ → Text
numeral zero n = []
numeral (suc f) n =
    let rest = numeral f (n / 10) in if ltb n 10 then (48 + n) ∷ [] else rest ++ (48 + n % 10) ∷ []

unfoldable pub str : ℕ → Text
unfolding numeral
str n = numeral (suc n) n

-- The number that a numeral writes.
abbrev add_digit : ℕ → ℕ → ℕ
add_digit n c = n * 10 + (c - 48)

read : Text → ℕ
read = foldl add_digit 0

read-snoc : (s : Text) (c : ℕ) → read (s ++ c ∷ []) ≡ add_digit (read s) c
unfolding read
read-snoc s c = foldl-append add_digit 0 s (c ∷ [])

read-one : (c : ℕ) → read (c ∷ []) ≡ c - 48
unfolding read
read-one c = omega arith

read-numeral : (f n : ℕ) → n < f → read (numeral f n) ≡ n
unfolding numeral
read-numeral zero n h = elim h [ ]
read-numeral (suc f) n h = elim (Bool-cases (ltb n 10)) [
  | inl small ↦ rw small (read-one (48 + n) ∙ omega arith)
  | inr large ↦ rw large (
      read-snoc (numeral f (n / 10)) (48 + n % 10)
      ∙ omega (arith, read-numeral f (n / 10) (ground arith)))
]

-- Numbers with one numeral are equal.
pub str_inj : (m n : ℕ) → str m ≡ str n → m ≡ n
unfolding str
str_inj m n e =
    sym (read-numeral (suc m) m (omega arith)) ∙ ap read e ∙ read-numeral (suc n) n (omega arith)

numeral-Lacks : (c f n : ℕ) → 57 < c → Lacks c (numeral f n)
unfolding numeral
numeral-Lacks c zero n h = tt
numeral-Lacks c (suc f) n h = elim (Bool-cases (ltb n 10)) [
  | inl small ↦ rw small (ground arith, tt)
  | inr large ↦ rw large (
      Lacks-append c (numeral f (n / 10)) ((48 + n % 10) ∷ []) (numeral-Lacks c f (n / 10) h)
        (omega arith, tt))
]

-- A numeral has nothing behind the digits in it.
pub str-Lacks : (c n : ℕ) → 57 < c → Lacks c (str n)
unfolding str
str-Lacks c n h = numeral-Lacks c (suc n) n h

-- The white space of `str.strip()`: the code points for which Python's `str.isspace` holds.
unfoldable pub is_space : ℕ → Bool
is_space c =
    (leb 9 c && leb c 13)
    || (leb 28 c && leb c 32)
    || c == 133
    || c == 160
    || c == 5760
    || (leb 8192 c && leb c 8202)
    || c == 8232
    || c == 8233
    || c == 8239
    || c == 8287
    || c == 12288

unfoldable pub lstrip : Text → Text
unfolding is_space
lstrip [] = []
lstrip (c ∷ t) = let rest = lstrip t in if is_space c then rest else c ∷ t

unfoldable pub strip : Text → Text
unfolding lstrip
strip t = reverse (lstrip (reverse (lstrip t)))
