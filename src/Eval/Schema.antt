-- ===== src/Eval/Schema.antt =====
-- What the schema validator accepts, and when it raises.
use llmgov.Base.{
  ◌≡◌, ◌↔◌, [], ◌∷◌, ◌⊎◌, refl, inl, inr, Bool, true, false, ◌||◌, Bool-cases, Option, none, some,
  Text, codes, is_empty, strip, arith, if◌then◌else◌,
}
use llmgov.Floats.{Floats}
use llmgov.Lines.{starts_with}
use llmgov.Eval.{
  Loaded, value, malformed, failed, Verdict, valid, invalid, broken, Grader, meets_schema, is_json,
  validate_schema,
}

abbrev pub looks_like_json : Text → Bool
looks_like_json t = starts_with (codes "{") t || starts_with (codes "[") t

module _ {f : Floats} (g : Grader f) where
  abbrev Parses : Text → Type 0
  Parses t = (v : g.V) × (g.loads t ≡ value v)

  abbrev IsStuck : Text → Type 0
  IsStuck t = (message : Text) × (g.loads t ≡ failed message)

  -- The text, stripped, is what was asked for: a document of the schema, or, without a schema, a
  -- document wherever it starts like one.
  abbrev pub IsAsked : Text → Option g.Schema → Type 0
  IsAsked t (some schema) = (v : g.V) × (g.loads t ≡ value v) × (g.validate v schema ≡ valid)
  IsAsked t none = looks_like_json t ≡ true → Parses t

  -- The parser fails with an exception other than `JSONDecodeError`, or the schema is wrong.
  abbrev pub IsLost : Text → Option g.Schema → Type 0
  IsLost t (some schema) =
      IsStuck t ⊎ ((v : g.V) × (g.loads t ≡ value v) × (g.validate v schema ≡ broken))
  IsLost t none = (looks_like_json t ≡ true) × IsStuck t

  -- What a result says of the stripped text.
  abbrev Means : Text → Option g.Schema → Option Bool → Type 0
  Means t schema none = IsLost t schema
  Means t schema (some true) = IsAsked t schema
  Means t schema (some false) = ¬ IsAsked t schema × ¬ IsLost t schema

  verdict-Means :
      (t : Text) (schema : g.Schema) (v : g.V) (j : Verdict)
      → g.loads t ≡ value v
      → g.validate v schema ≡ j
      → Means t (some schema) (meets_schema g t schema)
  unfolding meets_schema
  verdict-Means t schema v valid e k =
      let q : meets_schema g t schema ≡ some true = rw (e, meets_schema) (rw k refl) in
      rw q (v, e, k)
  verdict-Means t schema v invalid e k =
      let q : meets_schema g t schema ≡ some false = rw (e, meets_schema) (rw k refl) in
      rw q (
        λ (v', e', k'). cc (e, e', k, k'),
        λ lost. elim lost [ inl (m, e') ↦ cc (e, e') | inr (v', e', k') ↦ cc (e', k') ],
      )
  verdict-Means t schema v broken e k =
      let q : meets_schema g t schema ≡ none = rw (e, meets_schema) (rw k refl) in
      rw q (inr (v, e, k))

  schema-Means :
      (t : Text) (schema : g.Schema) (l : Loaded g.V)
      → g.loads t ≡ l
      → Means t (some schema) (meets_schema g t schema)
  unfolding meets_schema
  schema-Means t schema (value v) e = verdict-Means t schema v (g.validate v schema) e refl
  schema-Means t schema (malformed m) e =
      let q : meets_schema g t schema ≡ some false = rw (e, meets_schema) refl in
      rw q (
        λ (v, e', k). cc (e, e'),
        λ lost. elim lost [ inl (m', e') ↦ cc (e, e') | inr (v, e', k) ↦ cc (e, e') ],
      )
  schema-Means t schema (failed m) e =
      let q : meets_schema g t schema ≡ none = rw (e, meets_schema) refl in rw q (inl (m, e))

  json-Means :
      (t : Text) (l : Loaded g.V)
      → looks_like_json t ≡ true
      → g.loads t ≡ l
      → Means t none (is_json g t)
  unfolding is_json
  json-Means t (value v) h e =
      let q : is_json g t ≡ some true = rw (e, is_json) refl in rw q (λ h. (v, e))
  json-Means t (malformed m) h e =
      let q : is_json g t ≡ some false = rw (e, is_json) refl in
      rw q (λ asked. (let (v, e') = asked h in cc (e, e')), λ (h, (m', e')). cc (e, e'))
  json-Means t (failed m) h e =
      let q : is_json g t ≡ none = rw (e, is_json) refl in rw q (h, (m, e))

  text-Means : (t : Text) → Means t none (if looks_like_json t then is_json g t else some true)
  text-Means t = elim (Bool-cases (looks_like_json t)) [
    | inl h ↦ rw h (json-Means t (g.loads t) h refl)
    | inr h ↦ rw h (λ k. absurd (ground (arith, h, k)))
  ]

  strip_empty : is_empty (strip []) ≡ true
  unfolding strip
  strip_empty = refl

  validate_schema-Means :
      (text : Text) (schema : Option g.Schema)
      → is_empty (strip text) ≡ false
      → Means (strip text) schema (validate_schema g text schema)
  unfolding validate_schema
  validate_schema-Means [] schema h = absurd (ground (arith, h, strip_empty))
  validate_schema-Means (c ∷ text) none h = rw h (text-Means (strip (c ∷ text)))
  validate_schema-Means (c ∷ text) (some schema) h =
      rw h (schema-Means (strip (c ∷ text)) schema (g.loads (strip (c ∷ text))) refl)

  asked_not-IsLost : (t : Text) (schema : Option g.Schema) → IsAsked t schema → ¬ IsLost t schema
  asked_not-IsLost t none asked (h, (m, e)) = let (v, e') = asked h in cc (e, e')
  asked_not-IsLost t (some schema) (v, e, k) (inl (m, e')) = cc (e, e')
  asked_not-IsLost t (some schema) (v, e, k) (inr (v', e', k')) = cc (e, e', k, k')

  -- The text is not blank.
  abbrev HasText : Text → Type 0
  HasText text = is_empty (strip text) ≡ false

  abbrev pub Answers : Text → Option g.Schema → Option Bool → Type 0
  Answers text schema r =
      ((r ≡ some true) ↔ (HasText text × IsAsked (strip text) schema))
      × ((r ≡ none) ↔ (HasText text × IsLost (strip text) schema))

  Means-Answers :
      (text : Text) (schema : Option g.Schema) (r : Option Bool)
      → HasText text
      → Means (strip text) schema r
      → Answers text schema r
  Means-Answers text schema none h m = (
    (λ e. cc e, λ (h, asked). absurd (asked_not-IsLost (strip text) schema asked m)),
    (λ e. (h, m), λ k. refl),
  )
  Means-Answers text schema (some true) h m = (
    (λ e. (h, m), λ k. refl),
    (λ e. cc e, λ (h, lost). absurd (asked_not-IsLost (strip text) schema m lost)),
  )
  Means-Answers text schema (some false) h m =
      ((λ e. cc e, λ (h, asked). absurd (m.0 asked)), (λ e. cc e, λ (h, lost). absurd (m.1 lost)))

  blank_rejected :
      (text : Text) (schema : Option g.Schema)
      → is_empty (strip text) ≡ true
      → validate_schema g text schema ≡ some false
  unfolding validate_schema
  blank_rejected [] schema h = refl
  blank_rejected (c ∷ text) schema h = rw h refl

  -- The validator answers true exactly where the text is not blank and, stripped, is a document that
  -- is valid for the schema or, without a schema, does not start with a brace or a bracket or is a
  -- document; it raises exactly where the text is not blank and the parser, which without a schema
  -- is asked only of such a start, fails otherwise than by a syntax error, or the schema is wrong.
  pub validate_schema_iff :
      (text : Text) (schema : Option g.Schema) → Answers text schema (validate_schema g text schema)
  validate_schema_iff text schema = elim (Bool-cases (is_empty (strip text))) [
    | inl blank ↦ rw (blank_rejected text schema blank) (
      (λ e. cc e, λ (h, asked). absurd (ground (arith, h, blank))),
      (λ e. cc e, λ (h, lost). absurd (ground (arith, h, blank))),
    )
    | inr h ↦
        Means-Answers text schema (validate_schema g text schema) h
          (validate_schema-Means text schema h)
  ]
