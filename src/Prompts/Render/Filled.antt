-- ===== src/Prompts/Render/Filled.antt =====
-- A rendered template: its literal parts, with the values in the places of the keys.
use mathlib.Core.List.{append_assoc}
use llmgov.Base.{
  ℕ, ◌-◌, ◌≡◌, ◌≢◌, ◌∙◌, refl, ap, sym, inl, inr, true, false, Option, none, some, List, [], ◌∷◌,
  ◌++◌, Text, All, Lacks, Lacks-append, length, text_eq, text_eq_sound, text_eq_refl, Bool-cases,
  arith, tail-eq, split_first, if◌then◌else◌,
}
use llmgov.Lines.{starts_with}
use llmgov.Prompts.{PromptVersion}
use llmgov.Prompts.Render.{replace_from, marker, render_text, render}

pub data Piece : Type 0 where
  literal hole : Text → Piece

-- The template of some pieces.
unfoldable pub print : List Piece → Text
print [] = []
print (literal t ∷ ps) = t ++ print ps
print (hole key ∷ ps) = marker key ++ print ps

unfoldable pub value_of : Text → List (Text × Text) → Option Text
value_of key [] = none
value_of key ((k, value) ∷ rest) =
    let later = value_of key rest in if text_eq k key then some value else later

-- The values in the places of their keys; a key that has none stays as it is written.
unfoldable pub fill : List (Text × Text) → List Piece → Text
unfolding value_of
fill kwargs [] = []
fill kwargs (literal t ∷ ps) = t ++ fill kwargs ps
fill kwargs (hole key ∷ ps) =
    elim (value_of key kwargs) [ none ↦ marker key | some value ↦ value ] ++ fill kwargs ps

-- A key without braces.
abbrev pub IsKey : Text → Type 0
IsKey key = Lacks b'{' key × Lacks b'}' key

-- No brace opens but those of the keys.
abbrev pub IsPlain : Piece → Type 0
IsPlain (literal t) = Lacks b'{' t
IsPlain (hole key) = IsKey key

abbrev pub IsBinding : Text × Text → Type 0
IsBinding (key, value) = IsKey key × Lacks b'{' value

starts_with-append : (p t : Text) → starts_with p (p ++ t) ≡ true
unfolding starts_with
starts_with-append [] t = refl
starts_with-append (c ∷ p) t = ground (arith, starts_with-append p t)

starts_with-rest : (p t : Text) → starts_with p t ≡ true → (r : Text) × (t ≡ p ++ r)
unfolding starts_with
starts_with-rest [] t h = (t, refl)
starts_with-rest (c ∷ p) [] h = cc h
starts_with-rest (c ∷ p) (d ∷ t) h =
    let (r, e) = starts_with-rest p t (ground (arith, h)) in
    (r, (let same : c ≡ d = ground (arith, h) in cc (same, e)))

module _ (key value : Text) where
  abbrev replaced : Text → Text
  replaced = replace_from (marker key) value 0

  replace_from-skip :
      (s t : Text) → replace_from (marker key) value (length s) (s ++ t) ≡ replaced t
  unfolding replace_from
  replace_from-skip [] t = refl
  replace_from-skip (c ∷ s) t = replace_from-skip s t

  -- A place at which no marker starts.
  passed :
      (c : ℕ) (t : Text)
      → starts_with (marker key) (c ∷ t) ≡ false
      → replaced (c ∷ t) ≡ c ∷ replaced t
  unfolding replace_from
  passed c t h = rw h refl

  unbraced : (c : ℕ) (t : Text) → c ≢ b'{' → starts_with (marker key) (c ∷ t) ≡ false
  unfolding starts_with
  unbraced c t h = ground (arith, h)

  replaced_nothing : replaced [] ≡ []
  unfolding replace_from
  replaced_nothing = refl

  replaced-Lacks : (s t : Text) → Lacks b'{' s → replaced (s ++ t) ≡ s ++ replaced t
  replaced-Lacks [] t h = refl
  replaced-Lacks (c ∷ s) t h =
      passed c (s ++ t) (unbraced c (s ++ t) h.0) ∙ ap (λ r. c ∷ r) (replaced-Lacks s t h.1)

  found :
      (c : ℕ) (t : Text)
      → starts_with (marker key) (c ∷ t) ≡ true
      → replaced (c ∷ t) ≡ value ++ replace_from (marker key) value (length (marker key) - 1) t
  unfolding replace_from
  found c t h = rw h refl

  replaced-marker : (t : Text) → replaced (marker key ++ t) ≡ value ++ replaced t
  replaced-marker t =
      let body : Text = b'{' ∷ (key ++ b'}' ∷ b'}' ∷ []) in
      let size : length (marker key) - 1 ≡ length body = omega arith in
      found b'{' (body ++ t) (starts_with-append (marker key) t)
      ∙ ap (λ n. value ++ replace_from (marker key) value n (body ++ t)) size
      ∙ ap (λ r. value ++ r) (replace_from-skip body t)

  second_differs : (c : ℕ) (t : Text) → c ≢ b'{' → starts_with (marker key) (b'{' ∷ c ∷ t) ≡ false
  unfolding starts_with
  second_differs c t h = ground (arith, h)

  not_second :
      (other t : Text)
      → Lacks b'{' other
      → starts_with (marker key) (b'{' ∷ ((other ++ b'}' ∷ b'}' ∷ []) ++ t)) ≡ false
  not_second [] t h = second_differs b'}' (b'}' ∷ t) (λ e. omega arith)
  not_second (c ∷ other) t h = second_differs c ((other ++ b'}' ∷ b'}' ∷ []) ++ t) h.0

  -- The marker of another key is passed.
  module _ (is_key : IsKey key) (other : Text) (is_other : IsKey other) (differ : key ≢ other) where
    same_key : (t : Text) → starts_with (marker key) (marker other ++ t) ≡ true → key ≡ other
    same_key t h =
        let (r, e) = starts_with-rest (marker key) (marker other ++ t) h in
        let behind : (other ++ b'}' ∷ b'}' ∷ []) ++ t ≡ (key ++ b'}' ∷ b'}' ∷ []) ++ r =
          tail-eq (tail-eq e) in
        (split_first b'}' key other (b'}' ∷ r) (b'}' ∷ t) is_key.1 is_other.1 (
          sym (append_assoc key (b'}' ∷ b'}' ∷ []) r)
          ∙ sym behind
          ∙ append_assoc other (b'}' ∷ b'}' ∷ []) t)).0

    not_first : (t : Text) → starts_with (marker key) (marker other ++ t) ≡ false
    not_first t = elim (Bool-cases (starts_with (marker key) (marker other ++ t))) [
      | inl h ↦ absurd (differ (same_key t h))
      | inr h ↦ h
    ]

    lacks : Lacks b'{' (other ++ b'}' ∷ b'}' ∷ [])
    lacks =
        Lacks-append b'{' other (b'}' ∷ b'}' ∷ []) is_other.0
          (λ e. omega arith, (λ e. omega arith, tt))

    replaced-other : (t : Text) → replaced (marker other ++ t) ≡ marker other ++ replaced t
    replaced-other t =
        let rest : Text = other ++ b'}' ∷ b'}' ∷ [] in
        passed b'{' (b'{' ∷ (rest ++ t)) (not_first t)
        ∙ ap (λ r. b'{' ∷ r)
            (passed b'{' (rest ++ t) (not_second other t is_other.0)
              ∙ ap (λ r. b'{' ∷ r) (replaced-Lacks rest t lacks))

-- `put` fills one key's holes.
unfoldable pub put : Text → Text → List Piece → List Piece
put key value [] = []
put key value (literal t ∷ ps) = literal t ∷ put key value ps
put key value (hole k ∷ ps) = (if text_eq key k then literal value else hole k) ∷ put key value ps

replaced-print :
    (key value : Text) (ps : List Piece)
    → IsKey key
    → All IsPlain ps
    → replace_from (marker key) value 0 (print ps) ≡ print (put key value ps)
unfolding print put
replaced-print key value [] k h = replaced_nothing key value
replaced-print key value (literal t ∷ ps) k h =
    replaced-Lacks key value t (print ps) h.0 ∙ ap (λ r. t ++ r) (replaced-print key value ps k h.1)
replaced-print key value (hole other ∷ ps) k h = elim (Bool-cases (text_eq key other)) [
  | inl same ↦ rw same (
      ap (λ k. replace_from (marker key) value 0 (marker k ++ print ps))
        (sym (text_eq_sound key other same))
      ∙ replaced-marker key value (print ps)
      ∙ ap (λ r. value ++ r) (replaced-print key value ps k h.1))
  | inr differ ↦ rw differ (
      replaced-other key value k other h.0
        (λ e. (let same = text_eq_refl other in cc (ap (λ k. text_eq k other) e, same, differ)))
        (print ps)
      ∙ ap (λ r. marker other ++ r) (replaced-print key value ps k h.1))
]

put-IsPlain :
    (key value : Text) (ps : List Piece)
    → Lacks b'{' value
    → All IsPlain ps
    → All IsPlain (put key value ps)
unfolding put
put-IsPlain key value [] v h = tt
put-IsPlain key value (literal t ∷ ps) v h = (h.0, put-IsPlain key value ps v h.1)
put-IsPlain key value (hole k ∷ ps) v h = elim (Bool-cases (text_eq key k)) [
  | inl same ↦ rw same (v, put-IsPlain key value ps v h.1)
  | inr differ ↦ rw differ (h.0, put-IsPlain key value ps v h.1)
]

fill-put :
    (key value : Text) (kwargs : List (Text × Text)) (ps : List Piece)
    → fill kwargs (put key value ps) ≡ fill ((key, value) ∷ kwargs) ps
unfolding fill put value_of
fill-put key value kwargs [] = refl
fill-put key value kwargs (literal t ∷ ps) = ap (λ r. t ++ r) (fill-put key value kwargs ps)
fill-put key value kwargs (hole k ∷ ps) = elim (Bool-cases (text_eq key k)) [
  | inl same ↦ rw same (ap (λ r. value ++ r) (fill-put key value kwargs ps))
  | inr differ ↦ rw differ (
      ap (λ r. elim (value_of k kwargs) [ none ↦ marker k | some value ↦ value ] ++ r)
        (fill-put key value kwargs ps))
]

fill-nothing : (ps : List Piece) → fill [] ps ≡ print ps
unfolding fill print value_of
fill-nothing [] = refl
fill-nothing (literal t ∷ ps) = ap (λ r. t ++ r) (fill-nothing ps)
fill-nothing (hole k ∷ ps) = ap (λ r. marker k ++ r) (fill-nothing ps)

render_text-print :
    (kwargs : List (Text × Text)) (ps : List Piece)
    → All IsBinding kwargs
    → All IsPlain ps
    → render_text kwargs (print ps) ≡ fill kwargs ps
unfolding render_text
render_text-print [] ps b h = sym (fill-nothing ps)
render_text-print ((key, value) ∷ rest) ps b h =
    ap (render_text rest) (replaced-print key value ps b.0.0 h)
    ∙ render_text-print rest (put key value ps) b.1 (put-IsPlain key value ps b.0.1 h)
    ∙ fill-put key value rest ps

-- A template of literal parts and keys is rendered as the parts with each key's value in its place,
-- the first where a key is given twice, and with a key that is not given left as it is written;
-- provided that no other brace opens in the template, that no value opens one, and that keys have no
-- braces.
pub render-fill :
    {W : Type 0} (kwargs : List (Text × Text)) (version : PromptVersion W) (ps : List Piece)
    → version.template_text ≡ print ps
    → All IsPlain ps
    → All IsBinding kwargs
    → render kwargs version ≡ fill kwargs ps
unfolding render
render-fill kwargs version ps e h b = rw e (render_text-print kwargs ps b h)
