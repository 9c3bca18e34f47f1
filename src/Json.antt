-- ===== src/Json.antt =====
-- How `json.dumps` writes a text, with `ensure_ascii`: quotes, the escapes of the C language, and
-- `\uXXXX` for everything outside of printable ASCII, in two halves above the 16-bit range.
pub mod Quote
use llmgov.Base.{
  ℕ, ◌+◌, ◌-◌, ◌/◌, ◌%◌, Bool, Option, none, some, List, [], ◌∷◌, ◌++◌, Text, codes, leb, ltb, ◌==◌,
  ◌||◌, ◌&&◌, if◌then◌else◌,
}

unfoldable pub hex_digit : ℕ → ℕ
hex_digit n = if ltb n 10 then 48 + n else 87 + n

unfoldable pub hex4 : ℕ → Text
unfolding hex_digit
hex4 n =
    hex_digit (n / 4096 % 16)
    ∷ hex_digit (n / 256 % 16)
    ∷ hex_digit (n / 16 % 16)
    ∷ hex_digit (n % 16)
    ∷ []

unfoldable pub escape_unit : ℕ → Text
unfolding hex4
escape_unit n = b'\\' ∷ b'u' ∷ hex4 n

unfoldable pub escape_code : ℕ → Text
unfolding escape_unit
escape_code c =
    if ltb c 65536
    then escape_unit c
    else escape_unit (55296 + (c - 65536) / 1024) ++ escape_unit (56320 + (c - 65536) % 1024)

-- The letter of an escape like `\n`.
unfoldable pub named_escape : ℕ → Option ℕ
named_escape c =
    if c == 10
    then some b'n'
    else if c == 13
    then some b'r'
    else if c == 9
    then some b't'
    else if c == 12
    then some b'f'
    else if c == 8
    then some b'b'
    else none

unfoldable pub escape : ℕ → Text
escape c =
    if c == b'"' || c == b'\\'
    then b'\\' ∷ c ∷ []
    else if leb 32 c && leb c 126
    then c ∷ []
    else elim (named_escape c) [ none ↦ escape_code c | some letter ↦ b'\\' ∷ letter ∷ [] ]

unfoldable pub escaped : Text → Text
unfolding escape
escaped [] = []
escaped (c ∷ t) = escape c ++ escaped t

unfoldable pub quote : Text → Text
unfolding escaped
quote t = b'"' ∷ (escaped t ++ b'"' ∷ [])
