-- ===== src/Json/Quote.antt =====
-- A written text can be read back, and ends where its closing quote stands.
use mathlib.Core.List.{append_assoc}
use llmgov.Base.{
  ℕ, ◌+◌, ◌-◌, ◌*◌, ◌/◌, ◌%◌, ◌<◌, ◌≤◌, ◌≡◌, ◌⊎◌, inl, inr, refl, ap, sym, ◌∙◌, true, ◌||◌, ◌&&◌,
  Option, none, some, [], ◌∷◌, ◌++◌, Text, leb, ltb, ◌==◌, if◌then◌else◌, All, arith, Bool-cases,
  Option-cases, ltb→lt, length, zero, suc, tail-eq,
}
use llmgov.Json.{hex_digit, hex4, escape_unit, escape_code, named_escape, escape, escaped, quote}

-- A code point that is no half of a pair.
abbrev pub IsScalar : ℕ → Type 0
IsScalar c = (c < 55296) ⊎ ((57343 < c) × (c < 1114112))

hex_value : ℕ → ℕ
hex_value c = if ltb c 58 then c - 48 else c - 87

hex_value-hex_digit : (n : ℕ) → n < 16 → hex_value (hex_digit n) ≡ n
unfolding hex_value hex_digit
hex_value-hex_digit n h = ground arith

-- The reader of `\uXXXX`, behind the backslash.
read_unit : Text → Option (ℕ × Text)
read_unit (u ∷ a ∷ b ∷ c ∷ d ∷ t) =
    if u == b'u'
    then some (((hex_value a * 16 + hex_value b) * 16 + hex_value c) * 16 + hex_value d, t)
    else none
read_unit _ = none

read_unit-hex4 : (n : ℕ) (t : Text) → n < 65536 → read_unit (b'u' ∷ (hex4 n ++ t)) ≡ some (n, t)
unfolding read_unit hex4
read_unit-hex4 n t h =
    rw
      (
        hex_value-hex_digit (n / 4096 % 16) (omega arith),
        hex_value-hex_digit (n / 256 % 16) (omega arith),
        hex_value-hex_digit (n / 16 % 16) (omega arith),
        hex_value-hex_digit (n % 16) (omega arith),
      )
      (ap (λ (m : ℕ). some (m, t)) (omega arith))

abbrev low_half : ℕ → Option (ℕ × Text) → Option (ℕ × Text)
low_half n none = none
low_half n (some (m, t)) = some (65536 + (n - 55296) * 1024 + (m - 56320), t)

second_unit : Text → Option (ℕ × Text)
second_unit [] = none
second_unit (c ∷ t) = if c == b'\\' then read_unit t else none

-- A half of a pair takes the other half behind it.
whole_unit : Option (ℕ × Text) → Option (ℕ × Text)
whole_unit none = none
whole_unit (some (n, t)) =
    if leb 55296 n && ltb n 56320 then low_half n (second_unit t) else some (n, t)

read_escape : Text → Option (ℕ × Text)
read_escape [] = none
read_escape (d ∷ t) =
    if d == b'n'
    then some (10, t)
    else if d == b'r'
    then some (13, t)
    else if d == b't'
    then some (9, t)
    else if d == b'f'
    then some (12, t)
    else if d == b'b'
    then some (8, t)
    else if d == b'u'
    then whole_unit (read_unit (d ∷ t))
    else some (d, t)

-- The reader of one character inside of quotes.
read_char : Text → Option (ℕ × Text)
read_char [] = none
read_char (c ∷ t) = if c == b'"' then none else if c == b'\\' then read_escape t else some (c, t)

read_char-escape_unit :
    (n : ℕ) (t : Text)
    → n < 65536
    → (n < 55296) ⊎ (56319 < n)
    → read_char (escape_unit n ++ t) ≡ some (n, t)
unfolding read_char read_escape whole_unit escape_unit
read_char-escape_unit n t h k =
    rw (read_unit-hex4 n t h) (elim k [ inl low ↦ ground arith | inr high ↦ ground arith ])

read_char-pair :
    (high low : ℕ) (t : Text)
    → high < 1024
    → low < 1024
    → read_char (escape_unit (55296 + high) ++ (escape_unit (56320 + low) ++ t))
      ≡ some (65536 + high * 1024 + low, t)
unfolding read_char read_escape whole_unit second_unit escape_unit
read_char-pair high low t h k =
    rw (read_unit-hex4 (55296 + high) (b'\\' ∷ b'u' ∷ (hex4 (56320 + low) ++ t)) (omega arith))
      (rw (read_unit-hex4 (56320 + low) t (omega arith)) (ground arith))

read_char-named :
    (c letter : ℕ) (t : Text)
    → named_escape c ≡ some letter
    → read_char (b'\\' ∷ letter ∷ t) ≡ some (c, t)
unfolding named_escape read_char read_escape
read_char-named c letter t h = ground arith

read_char-escape_code :
    (c : ℕ) (t : Text) → IsScalar c → read_char (escape_code c ++ t) ≡ some (c, t)
unfolding escape_code
read_char-escape_code c t h = elim (Bool-cases (ltb c 65536)) [
  | inl small ↦ rw small (
      read_char-escape_unit c t (ltb→lt c 65536 small)
        (elim h [ inl low ↦ inl low | inr high ↦ inr (omega (arith, high.0)) ]))
  | inr large ↦
      let above : 65536 ≤ c = ground arith in
      let below : c < 1114112 = elim h [ inl low ↦ omega (arith, low) | inr high ↦ high.1 ] in
      rw large (
        rw append_assoc (
          read_char-pair ((c - 65536) / 1024) ((c - 65536) % 1024) t (omega arith) (omega arith)
          ∙ ap (λ (n : ℕ). some (n, t)) (omega arith)))
]

read_char-escape : (c : ℕ) (t : Text) → IsScalar c → read_char (escape c ++ t) ≡ some (c, t)
unfolding escape
read_char-escape c t h = elim (Bool-cases (c == b'"' || c == b'\\')) [
  | inl quoted ↦ rw quoted (unfold read_char read_escape in ground arith)
  | inr not_quoted ↦ rw not_quoted (elim (Bool-cases (leb 32 c && leb c 126)) [
    | inl printable ↦ rw printable (unfold read_char in ground arith)
    | inr not_printable ↦ rw not_printable (elim (Option-cases (named_escape c)) [
      | inl e ↦ rw e (read_char-escape_code c t h)
      | inr (letter, e) ↦ rw e (read_char-named c letter t e)
    ])
  ])
]

abbrev with_char : ℕ → Option (Text × Text) → Option (Text × Text)
with_char c none = none
with_char c (some (s, t)) = some (c ∷ s, t)

-- The reader of a text behind its opening quote: the text, and what follows the closing quote. Each
-- character takes one unit of fuel.
pub read_body : ℕ → Text → Option (Text × Text)
read_body zero s = none
read_body (suc fuel) [] = none
read_body (suc fuel) (c ∷ t) = if c == b'"' then some ([], t) else elim (read_char (c ∷ t)) [
  | none ↦ none
  | some (d, rest) ↦ with_char d (read_body fuel rest)
]

read_char-nil : read_char [] ≡ none
unfolding read_char
read_char-nil = refl

read_char-end : (c : ℕ) (t : Text) → (c == b'"') ≡ true → read_char (c ∷ t) ≡ none
unfolding read_char
read_char-end c t h = rw h refl

read_body-char :
    (fuel : ℕ) (s : Text) (d : ℕ) (rest : Text)
    → read_char s ≡ some (d, rest)
    → read_body (suc fuel) s ≡ with_char d (read_body fuel rest)
unfolding read_body
read_body-char fuel [] d rest h = absurd (ground (arith, read_char-nil, h))
read_body-char fuel (c ∷ t) d rest h = elim (Bool-cases (c == b'"')) [
  | inl end ↦ absurd (ground (arith, read_char-end c t end, h))
  | inr inside ↦ rw inside (rw h refl)
]

-- A quoted text is read back whole, whatever follows it, on fuel for its characters and the closing
-- quote; its code points are no halves of pairs.
pub read_body-escaped :
    (fuel : ℕ) (s rest : Text)
    → length s < fuel
    → All IsScalar s
    → read_body fuel (escaped s ++ b'"' ∷ rest) ≡ some (s, rest)
unfolding escaped
read_body-escaped zero s rest h a = absurd (omega arith)
read_body-escaped (suc fuel) [] rest h a = unfold read_body in refl
read_body-escaped (suc fuel) (c ∷ s) rest h a = rw append_assoc (
    read_body-char fuel (escape c ++ (escaped s ++ b'"' ∷ rest)) c (escaped s ++ b'"' ∷ rest)
      (read_char-escape c (escaped s ++ b'"' ∷ rest) a.0)
    ∙ rw (read_body-escaped fuel s rest (omega arith) a.1) refl)

-- Two quoted texts with what follows them are the same only where the texts are the same, and what
-- follows.
pub quote_inj :
    (s s' t t' : Text)
    → All IsScalar s
    → All IsScalar s'
    → quote s ++ t ≡ quote s' ++ t'
    → (s ≡ s') × (t ≡ t')
unfolding quote
quote_inj s s' t t' a a' e =
    let fuel = length s + length s' + 1 in
    let same : escaped s ++ b'"' ∷ t ≡ escaped s' ++ b'"' ∷ t' =
      sym (append_assoc (escaped s) (b'"' ∷ []) t)
      ∙ (tail-eq e ∙ append_assoc (escaped s') (b'"' ∷ []) t') in
    let both =
      sym (read_body-escaped fuel s t (omega arith) a)
      ∙ (ap (read_body fuel) same ∙ read_body-escaped fuel s' t' (omega arith) a') in
    (cc, cc)
