-- ===== src/Logging/Line.antt =====
-- A log record is one line of printable ASCII.
use llmgov.Base.{
  ℕ, ◌+◌, ◌-◌, ◌/◌, ◌%◌, ◌<◌, ◌≡◌, refl, inl, inr, ◌&&◌, ◌||◌, Bool-cases, Option, none, some, List,
  [], ◌∷◌, ◌++◌, Text, All, All-append, codes, arith, leb, ltb, ◌==◌,
}
use llmgov.Json.{hex_digit, hex4, escape_unit, escape_code, named_escape, escape, escaped, quote}
use llmgov.Logging.{
  Value, text, other, LogRecord, dumps, dumps_field, dumps_fields, dumps_object, log_entry, format,
}

abbrev pub IsPrintable : ℕ → Type 0
IsPrintable c = (31 < c) × (c < 127)

abbrev pub IsLine : Text → Type 0
IsLine = All IsPrintable

hex_digit-IsPrintable : (n : ℕ) → n < 16 → IsPrintable (hex_digit n)
unfolding hex_digit
hex_digit-IsPrintable n h = elim (Bool-cases (ltb n 10)) [
  | inl small ↦ rw small (ground arith, ground arith)
  | inr large ↦ rw large (ground arith, ground arith)
]

escape_unit-IsLine : (n : ℕ) → IsLine (escape_unit n)
unfolding escape_unit hex4
escape_unit-IsLine n = (
  (omega arith, omega arith),
  (
    (omega arith, omega arith),
    (
      hex_digit-IsPrintable (n / 4096 % 16) (omega arith),
      (
        hex_digit-IsPrintable (n / 256 % 16) (omega arith),
        (
          hex_digit-IsPrintable (n / 16 % 16) (omega arith),
          (hex_digit-IsPrintable (n % 16) (omega arith), tt),
        ),
      ),
    ),
  ),
)

append-IsLine : (s t : Text) → IsLine s → IsLine t → IsLine (s ++ t)
append-IsLine s t = All-append IsPrintable s t

escape_code-IsLine : (c : ℕ) → IsLine (escape_code c)
unfolding escape_code
escape_code-IsLine c = elim (Bool-cases (ltb c 65536)) [
  | inl small ↦ rw small (escape_unit-IsLine c)
  | inr large ↦ rw large (
      append-IsLine (escape_unit (55296 + (c - 65536) / 1024))
        (escape_unit (56320 + (c - 65536) % 1024)) (escape_unit-IsLine (55296 + (c - 65536) / 1024))
        (escape_unit-IsLine (56320 + (c - 65536) % 1024)))
]

named_escape-IsPrintable : (c d : ℕ) → named_escape c ≡ some d → IsPrintable d
unfolding named_escape
named_escape-IsPrintable c d h = (ground (arith, h), ground (arith, h))

rest-IsLine :
    (c : ℕ) (named : Option ℕ)
    → named_escape c ≡ named
    → IsLine (elim named [ none ↦ escape_code c | some letter ↦ b'\\' ∷ letter ∷ [] ])
rest-IsLine c none e = escape_code-IsLine c
rest-IsLine c (some letter) e =
    ((omega arith, omega arith), (named_escape-IsPrintable c letter e, tt))

escape-IsLine : (c : ℕ) → IsLine (escape c)
unfolding escape
escape-IsLine c = elim (Bool-cases (c == b'"' || c == b'\\')) [
  | inl special ↦
      rw special
        ((omega arith, omega arith), ((ground (arith, special), ground (arith, special)), tt))
  | inr ordinary ↦ elim (Bool-cases (leb 32 c && leb c 126)) [
    | inl printable ↦
        rw ordinary (rw printable ((ground (arith, printable), ground (arith, printable)), tt))
    | inr control ↦ rw ordinary (rw control (rest-IsLine c (named_escape c) refl))
  ]
]

escaped-IsLine : (t : Text) → IsLine (escaped t)
unfolding escaped
escaped-IsLine [] = tt
escaped-IsLine (c ∷ t) = append-IsLine (escape c) (escaped t) (escape-IsLine c) (escaped-IsLine t)

quote-IsLine : (t : Text) → IsLine (quote t)
unfolding quote
quote-IsLine t = (
  (omega arith, omega arith),
  append-IsLine (escaped t) (b'"' ∷ []) (escaped-IsLine t) ((omega arith, omega arith), tt),
)

module _ {A : Type 0} (show : A → Text) (shown : (a : A) → IsLine (show a)) where
  dumps-IsLine : (v : Value A) → IsLine (dumps show v)
  unfolding dumps
  dumps-IsLine (text t) = quote-IsLine t
  dumps-IsLine (other a) = shown a

  dumps_field-IsLine : (field : Text × Value A) → IsLine (dumps_field show field)
  unfolding dumps_field
  dumps_field-IsLine (key, value) =
      append-IsLine (quote key ++ codes ": ") (dumps show value)
        (append-IsLine (quote key) (codes ": ") (quote-IsLine key)
          ((omega arith, omega arith), ((omega arith, omega arith), tt)))
        (dumps-IsLine value)

  dumps_fields-IsLine : (fields : List (Text × Value A)) → IsLine (dumps_fields show fields)
  unfolding dumps_fields
  dumps_fields-IsLine [] = tt
  dumps_fields-IsLine (field ∷ []) = dumps_field-IsLine field
  dumps_fields-IsLine (field ∷ next ∷ fields) =
      append-IsLine (dumps_field show field ++ codes ", ") (dumps_fields show (next ∷ fields))
        (append-IsLine (dumps_field show field) (codes ", ") (dumps_field-IsLine field)
          ((omega arith, omega arith), ((omega arith, omega arith), tt)))
        (dumps_fields-IsLine (next ∷ fields))

  dumps_object-IsLine : (fields : List (Text × Value A)) → IsLine (dumps_object show fields)
  unfolding dumps_object
  dumps_object-IsLine fields = (
    (omega arith, omega arith),
    append-IsLine (dumps_fields show fields) (codes "}") (dumps_fields-IsLine fields)
        ((omega arith, omega arith), tt),
  )

  -- Whatever a log record's message, attributes and exception and the request's id are, it is
  -- formatted as printable ASCII, with no line break in it, provided that the values that are not
  -- texts are written so.
  pub format-IsLine :
      (timestamp : Text) (trace_id : Option Text) (log : LogRecord A)
      → IsLine (format show timestamp trace_id log)
  unfolding format
  format-IsLine timestamp trace_id log = dumps_object-IsLine (log_entry show timestamp trace_id log)
