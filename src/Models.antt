-- ===== src/Models.antt =====
-- app/models/completions.py: the request and response models. A float is a value of the type `F`
-- that the modules using it take as a parameter; a token count is a number.
pub mod Validation
use llmgov.Base.{ℕ, Bool, List, Option, Text}

pub record ChatMessage : Type 0 where
  pub role : Text
  pub content : Text

-- `messages` has at least one element, by its validator.
pub record ChatCompletionRequest (F : Type 0) : Type 0 where
  pub model : Text
  pub messages : List ChatMessage
  pub temperature : Option F
  pub max_tokens : Option ℕ
  pub stream : Bool

pub record UsageInfo : Type 0 where
  pub prompt_tokens : ℕ
  pub completion_tokens : ℕ
  pub total_tokens : ℕ

pub record ChoiceMessage : Type 0 where
  pub role : Text
  pub content : Option Text

pub record Choice : Type 0 where
  pub index : ℕ
  pub message : ChoiceMessage
  pub finish_reason : Option Text

pub record ChatCompletionResponse : Type 0 where
  pub id : Text
  pub object : Text
  pub created : ℕ
  pub model : Text
  pub choices : List Choice
  pub usage : UsageInfo
  pub trace_id : Option Text
