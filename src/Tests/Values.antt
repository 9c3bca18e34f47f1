-- ===== src/Tests/Values.antt =====
-- Unicode classes, floats and case mapping at concrete values: those of ASCII, and hundredths.
use llmgov.Base.{
  ℕ, ◌+◌, ◌-◌, ◌*◌, ◌/◌, ◌&&◌, ◌||◌, leb, ltb, ◌==◌, map, none, some, Text, if◌then◌else◌, arith,
}
use llmgov.Unicode.{Unicode}
use llmgov.Floats.{Floats, IsOrder}

abbrev pub ascii : Unicode
ascii = record {
  word = λ c.
      (leb b'a' c && leb c b'z')
      || ((leb b'A' c && leb c b'Z') || ((leb b'0' c && leb c b'9') || c == b'_'));
  decimal = λ c. if leb b'0' c && leb c b'9' then some (c - b'0') else none;
}

abbrev pub numbers : Floats
numbers = record {
  F = ℕ;
  hundredths = λ n. n;
  add = λ a b. a + b;
  mul = λ a b. a * b / 100;
  div = λ a b. a * 100 / b;
  sqrt = λ a. a;
  less = λ a b. ltb a b;
  is_zero = λ a. a == 0;
  round = λ digits a. a;
}

pub numbers-IsOrder : IsOrder numbers
numbers-IsOrder = record {
  transitive = λ a b c h k. ground arith;
  below = λ a b c h k. ground arith;
}

abbrev pub lowered : Text → Text
lowered t = map (λ c. if leb b'A' c && leb c b'Z' then c + 32 else c) t
