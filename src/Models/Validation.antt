-- ===== src/Models/Validation.antt =====
-- The types and constraints of app/models/completions.py on the body of a request. How a value of
-- JSON is taken as one of a field's type is pydantic's part, in front of this; so is the text of an
-- error.
pub mod Outcome
pub mod Sound
use llmgov.Base.{
  ℕ, zero, suc, ◌+◌, ◌<◌, ◌≡◌, ◌≢◌, ◌⊎◌, inl, inr, refl, ap, Bool, true, false, Option, none, some,
  List, [], ◌∷◌, ◌++◌, map, Text, All, All-append, Bool-cases, arith, if◌then◌else◌,
}
use llmgov.Models.{ChatMessage, ChatCompletionRequest}

pub data ℤ : Type 0 where
  pos negsuc : ℕ → ℤ

-- A field of the body: missing, with a value that is none of its type, or with one that is.
pub data Given {ℓ} (A : Type ℓ) : Type ℓ where
  missing mistyped : Given A
  given : A → Given A

pub record MessageBody : Type 0 where
  pub role : Given Text
  pub content : Given Text

-- An element of `messages` that is no JSON object is none.
pub record ChatCompletionBody (F : Type 0) : Type 0 where
  pub model : Given Text
  pub messages : Given (List (Option MessageBody))
  pub temperature : Given (Option F)
  pub max_tokens : Given (Option ℤ)
  pub stream : Given Bool

-- The fields that an error can be at.
pub data Field : Type 0 where
  body_field model_field messages_field temperature_field max_tokens_field stream_field : Field
  message_field role_field content_field : (index : ℕ) → Field

pub data Checked {ℓ} (A : Type ℓ) : Type ℓ where
  valid : A → Checked A
  violated : List Field → Checked A

-- Every field is checked, and the errors are collected.
abbrev pub both : {A B : Type 0} → Checked A → Checked B → Checked (A × B)
both (valid a) (valid b) = valid (a, b)
both (valid a) (violated fields) = violated fields
both (violated fields) (valid b) = violated fields
both (violated fields) (violated fields') = violated (fields ++ fields')

abbrev pub checked_map : {A B : Type 0} → (A → B) → Checked A → Checked B
checked_map f (valid a) = valid (f a)
checked_map f (violated fields) = violated fields

-- `Field(...)`
abbrev pub required : {A : Type 0} → Field → Given A → Checked A
required field missing = violated (field ∷ [])
required field mistyped = violated (field ∷ [])
required field (given value) = valid value

abbrev pub check_fields : ℕ → MessageBody → Checked ChatMessage
check_fields i m =
    checked_map (λ (fields : Text × Text). record { role = fields.0; content = fields.1 })
      (both (required (role_field i) m.role) (required (content_field i) m.content))

unfoldable pub check_message : ℕ → Option MessageBody → Checked ChatMessage
check_message i none = violated (message_field i ∷ [])
check_message i (some m) = check_fields i m

unfoldable pub check_items : ℕ → List (Option MessageBody) → Checked (List ChatMessage)
unfolding check_message
check_items i [] = valid []
check_items i (m ∷ rest) =
    checked_map (λ (items : ChatMessage × List ChatMessage). items.0 ∷ items.1)
      (both (check_message i m) (check_items (suc i) rest))

-- `min_length=1`
unfoldable pub check_messages : Given (List (Option MessageBody)) → Checked (List ChatMessage)
unfolding check_items
check_messages missing = violated (messages_field ∷ [])
check_messages mistyped = violated (messages_field ∷ [])
check_messages (given []) = violated (messages_field ∷ [])
check_messages (given (m ∷ rest)) = check_items 0 (m ∷ rest)

-- `default=1024, gt=0`
unfoldable pub check_max_tokens : Given (Option ℤ) → Checked (Option ℕ)
check_max_tokens missing = valid (some 1024)
check_max_tokens mistyped = violated (max_tokens_field ∷ [])
check_max_tokens (given none) = valid none
check_max_tokens (given (some (pos zero))) = violated (max_tokens_field ∷ [])
check_max_tokens (given (some (pos (suc n)))) = valid (some (suc n))
check_max_tokens (given (some (negsuc n))) = violated (max_tokens_field ∷ [])

-- `default=False`
abbrev pub check_stream : Given Bool → Checked Bool
check_stream missing = valid false
check_stream mistyped = violated (stream_field ∷ [])
check_stream (given stream) = valid stream

module _ {F : Type 0} (is_within : F → Bool) where
  -- `default=None, ge=0.0, le=2.0`, where `is_within` is the comparison with both.
  unfoldable pub check_temperature : Given (Option F) → Checked (Option F)
  check_temperature missing = valid none
  check_temperature mistyped = violated (temperature_field ∷ [])
  check_temperature (given none) = valid none
  check_temperature (given (some x)) =
      if is_within x then valid (some x) else violated (temperature_field ∷ [])

  unfoldable pub check_body : ChatCompletionBody F → Checked (ChatCompletionRequest F)
  unfolding check_messages check_temperature check_max_tokens
  check_body body =
      checked_map
        (λ (fields : Text × (List ChatMessage × (Option F × (Option ℕ × Bool)))). record {
          model = fields.0;
          messages = fields.1.0;
          temperature = fields.1.1.0;
          max_tokens = fields.1.1.1.0;
          stream = fields.1.1.1.1;
        })
        (both (required model_field body.model) (
          both (check_messages body.messages) (
            both (check_temperature body.temperature)
              (both (check_max_tokens body.max_tokens) (check_stream body.stream)))))

  -- A body that is no JSON object is none.
  unfoldable pub validate : Option (ChatCompletionBody F) → Checked (ChatCompletionRequest F)
  unfolding check_body
  validate none = violated (body_field ∷ [])
  validate (some body) = check_body body
