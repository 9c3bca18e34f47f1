-- ===== src/Audit/Serial.antt =====
-- What a serialized row says of its entry.
use llmgov.Base.{
  ℕ, ◌≡◌, refl, Bool, true, false, ◌++◌, Text, codes, Lacks, All, append_cancel_left, split_first,
  head-eq, tail-eq, arith, if◌then◌else◌,
}
use llmgov.Json.Quote.{IsScalar, quote_inj}
use llmgov.Audit.{Entry, Tools, serialize_audit_row}

-- What Python's `repr` of floats is relied on for: different floats are written differently, and
-- without a comma.
pub record IsRepr {F : Type 0} (show : F → Text) : Type 0 where
  pub injective : (x y : F) → show x ≡ show y → x ≡ y
  pub plain : (x : F) → Lacks b',' (show x)

-- The texts of an entry hold no halves of pairs.
pub record IsEncodable {F : Type 0} (r : Entry F) : Type 0 where
  pub trace_id : All IsScalar r.trace_id
  pub timestamp : All IsScalar r.timestamp
  pub sanitized_prompt : All IsScalar r.sanitized_prompt
  pub raw_response : All IsScalar r.raw_response

abbrev digit_of : Bool → Text
digit_of b = if b then codes "1" else codes "0"

digit_of_inj : (b c : Bool) (t t' : Text) → digit_of b ++ t ≡ digit_of c ++ t' → (b ≡ c) × (t ≡ t')
digit_of_inj true true t t' e = (refl, tail-eq e)
digit_of_inj false false t t' e = (refl, tail-eq e)
digit_of_inj true false t t' e = absurd (let h : ◌≡◌ {A = ℕ} 49 48 = head-eq e in omega arith)
digit_of_inj false true t t' e = absurd (let h : ◌≡◌ {A = ℕ} 48 49 = head-eq e in omega arith)

-- Two entries with the same serialized row are the same.
pub serialize_audit_row_inj :
    {F : Type 0} (t : Tools F)
    → IsRepr t.show
    → (r r' : Entry F) → IsEncodable r
    → IsEncodable r'
    → serialize_audit_row t r ≡ serialize_audit_row t r'
    → r ≡ r'
unfolding serialize_audit_row
serialize_audit_row_inj t repr r r' h h' e =
    let (flags, e1) =
      digit_of_inj r.has_pii_redacted r'.has_pii_redacted _ _
        (append_cancel_left (codes "{\"has_pii_redacted\":") _ _ e) in
    let (shown, e2) =
      split_first b',' (t.show r.jailbreak_score) (t.show r'.jailbreak_score) _ _
        (repr.plain r.jailbreak_score) (repr.plain r'.jailbreak_score)
        (append_cancel_left (codes ",\"jailbreak_score\":") _ _ e1) in
    let (responses, e3) =
      quote_inj r.raw_response r'.raw_response _ _ h.raw_response h'.raw_response
        (append_cancel_left (codes "\"raw_response\":") _ _ e2) in
    let (prompts, e4) =
      quote_inj r.sanitized_prompt r'.sanitized_prompt _ _ h.sanitized_prompt h'.sanitized_prompt
        (append_cancel_left (codes ",\"sanitized_prompt\":") _ _ e3) in
    let (timestamps, e5) =
      quote_inj r.timestamp r'.timestamp _ _ h.timestamp h'.timestamp
        (append_cancel_left (codes ",\"timestamp\":") _ _ e4) in
    let (shown', e6) =
      split_first b',' (t.show r.toxicity_score) (t.show r'.toxicity_score) _ _
        (repr.plain r.toxicity_score) (repr.plain r'.toxicity_score)
        (append_cancel_left (codes ",\"toxicity_score\":") _ _ e5) in
    let traces =
      (quote_inj r.trace_id r'.trace_id _ _ h.trace_id h'.trace_id
        (append_cancel_left (codes "\"trace_id\":") _ _ e6)).0 in
    cc (
      flags,
      repr.injective _ _ shown,
      responses,
      prompts,
      timestamps,
      repr.injective _ _ shown',
      traces,
    )
