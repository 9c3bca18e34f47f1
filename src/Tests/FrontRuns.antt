-- ===== src/Tests/FrontRuns.antt =====
-- Bodies that are posted to the application: one with defaults, and one with three errors.
use llmgov.Base.{ℕ, ◌≡◌, ◌⊎◌, refl, Bool, false, none, some, [], ◌∷◌, codes, leb}
use llmgov.Models.Validation.{
  ChatCompletionBody, negsuc, missing, mistyped, given, role_field, stream_field, message_field,
  body_field, valid, violated, validate, messages_field, temperature_field, max_tokens_field,
}
use llmgov.Models.Validation.Sound.{AnswersPosted, validate-Answers}
use llmgov.Externals.{provider_error}
use llmgov.Middleware.Application.{completion, answer}
use llmgov.Middleware.Front.{IsTurnedAway, IsServed, answer-IsClean}
use llmgov.Tests.Services.{moments, gateway, headers}

abbrev within : ℕ → Bool
within x = leb x 2

abbrev short : ChatCompletionBody ℕ
short = record {
  model = given (codes "gemini/g");
  messages =
      given (some (record { role = given (codes "user"); content = given (codes "a@b.co") }) ∷ []);
  temperature = missing;
  max_tokens = missing;
  stream = missing;
}

abbrev wrong : ChatCompletionBody ℕ
wrong = record short {
  messages = given [];
  temperature = given (some 3);
  max_tokens = given (some (negsuc 0));
}

abbrev wrong_types : ChatCompletionBody ℕ
wrong_types = record short {
  messages = given (none ∷ some (record { role = mistyped; content = given (codes "q") }) ∷ []);
  stream = mistyped;
}

short_valid :
    validate within (some short)
    ≡ valid (record {
      model = codes "gemini/g";
      messages = record { role = codes "user"; content = codes "a@b.co" } ∷ [];
      temperature = none;
      max_tokens = some 1024;
      stream = false;
    })
unfolding validate
short_valid = refl

types_checked :
    validate within (some wrong_types)
    ≡ violated (message_field 0 ∷ role_field 1 ∷ stream_field ∷ [])
unfolding validate
types_checked = refl

no_object : validate within none ≡ violated (body_field ∷ [])
unfolding validate
no_object = refl

wrong_fields :
    validate within (some wrong)
    ≡ violated (messages_field ∷ temperature_field ∷ max_tokens_field ∷ [])
unfolding validate
wrong_fields = refl

validate-Answers_example : AnswersPosted within (some wrong) (validate within (some wrong))
validate-Answers_example = validate-Answers within (some wrong)

answer-IsClean_example :
    let after =
      answer within []
        (codes "f")
        false
        (headers (codes "k1"))
        (completion (moments provider_error) (some short))
        none
        (gateway provider_error) in
    IsTurnedAway within []
      (codes "f")
      false
      (headers (codes "k1"))
      (moments provider_error)
      (some short)
      none
      (gateway provider_error)
      after
    ⊎ IsServed within []
        (codes "f")
        false
        (headers (codes "k1"))
        (moments provider_error)
        (some short)
        none
        (gateway provider_error)
        after
answer-IsClean_example =
    answer-IsClean within [] (codes "f") false (headers (codes "k1")) (moments provider_error)
      (some short) none (gateway provider_error) refl
