-- ===== src/Models/Validation/Sound.antt =====
-- What a checked body is: a request with the body's values, or the fields that are wrong.
use mathlib.Core.List.{append_assoc}
use llmgov.Base.{
  ℕ, zero, suc, ◌<◌, ◌≡◌, ◌≢◌, ◌⊎◌, ◌∙◌, inl, inr, refl, ap, sym, Bool, true, false, Option, none,
  some, List, [], ◌∷◌, ◌++◌, map, Text, Bool-cases, arith, length, length-append,
}
use llmgov.Models.{ChatMessage, ChatCompletionRequest}
use llmgov.Models.Validation.{
  ℤ, pos, negsuc, Given, given, missing, mistyped, MessageBody, ChatCompletionBody, Field,
  body_field, stream_field, message_field, model_field, messages_field, temperature_field,
  max_tokens_field, role_field, content_field, Checked, violated, required, check_message,
  check_items, check_messages, check_max_tokens, check_stream, check_body, check_temperature,
  validate,
}
use llmgov.Models.Validation.Outcome.{Holds, Holds-imp, both-Holds, checked_map-Holds, one_field}

-- A field's value as it is given, or the default of a field that is missing.
abbrev pub IsGivenOr : {A : Type 0} → A → Given A → A → Type 0
IsGivenOr default field value = (field ≡ given value) ⊎ ((field ≡ missing) × (value ≡ default))

-- No value of the field's type.
abbrev pub IsUngiven : {A : Type 0} → Given A → Type 0
IsUngiven field = (field ≡ missing) ⊎ (field ≡ mistyped)

abbrev pub written : ChatMessage → Option MessageBody
written m = some (record { role = given m.role; content = given m.content })

abbrev pub written_tokens : Option ℕ → Option ℤ
written_tokens none = none
written_tokens (some n) = some (pos n)

written_eq :
    (m : MessageBody) (fields : Text × Text)
    → m.role ≡ given fields.0
    → m.content ≡ given fields.1
    → some m ≡ written (record { role = fields.0; content = fields.1 })
written_eq m fields r c = rw (← r, ← c) refl

-- An element of the body's messages, at its place.
pub record MessageAt (messages : Given (List (Option MessageBody))) (index : ℕ) : Type 0 where
  pub before : List (Option MessageBody)
  pub message : Option MessageBody
  pub after : List (Option MessageBody)
  pub is : messages ≡ given (before ++ message ∷ after)
  pub place : length before ≡ index

required-Holds :
    {A : Type 0} (W : Field → Type 0) (field : Field) (found : Given A)
    → (IsUngiven found → W field)
    → Holds (λ value. found ≡ given value) W (required field found)
required-Holds W field missing wrong = one_field W field (wrong (inl refl))
required-Holds W field mistyped wrong = one_field W field (wrong (inr refl))
required-Holds W field (given value) wrong = refl

module _ {F : Type 0} (is_within : F → Bool) (body : ChatCompletionBody F) where
  -- Why an error is at a field: its value is missing or none of its type, or its constraint does not
  -- hold.
  abbrev pub IsWrong : Field → Type 0
  IsWrong body_field = ⊥
  IsWrong model_field = IsUngiven body.model
  IsWrong messages_field = IsUngiven body.messages ⊎ (body.messages ≡ given [])
  IsWrong temperature_field =
      (body.temperature ≡ mistyped)
      ⊎ ((x : F) × (body.temperature ≡ given (some x)) × (is_within x ≡ false))
  IsWrong max_tokens_field =
      (body.max_tokens ≡ mistyped)
      ⊎ ((z : ℤ) × (body.max_tokens ≡ given (some z)) × ((n : ℕ) → 0 < n → z ≢ pos n))
  IsWrong stream_field = body.stream ≡ mistyped
  IsWrong (message_field i) = (m : MessageAt body.messages i) × (m.message ≡ none)
  IsWrong (role_field i) =
      (m : MessageAt body.messages i) × (fields : MessageBody) × (m.message ≡ some fields)
      × IsUngiven fields.role
  IsWrong (content_field i) =
      (m : MessageAt body.messages i) × (fields : MessageBody) × (m.message ≡ some fields)
      × IsUngiven fields.content

  -- The request of a body in which nothing is wrong.
  pub record IsRequest (request : ChatCompletionRequest F) : Type 0 where
    pub model : body.model ≡ given request.model
    pub messages : body.messages ≡ given (map written request.messages)
    pub not_empty : request.messages ≢ []
    pub temperature : IsGivenOr none body.temperature request.temperature
    pub within : (x : F) → request.temperature ≡ some x → is_within x ≡ true
    pub max_tokens :
        (body.max_tokens ≡ given (written_tokens request.max_tokens))
        ⊎ ((body.max_tokens ≡ missing) × (request.max_tokens ≡ some 1024))
    pub positive : (n : ℕ) → request.max_tokens ≡ some n → 0 < n
    pub stream : IsGivenOr false body.stream request.stream

  abbrev pub Answers : Checked (ChatCompletionRequest F) → Type 0
  Answers = Holds IsRequest IsWrong

  check_message-Holds :
      (i : ℕ) (before : List (Option MessageBody)) (m : Option MessageBody)
      (after : List (Option MessageBody))
      → body.messages ≡ given (before ++ m ∷ after)
      → length before ≡ i
      → Holds (λ checked. m ≡ written checked) IsWrong (check_message i m)
  unfolding check_message
  check_message-Holds i before none after is place =
      one_field IsWrong (message_field i)
        (record { before = before; message = none; after = after; is = is; place = place }, refl)
  check_message-Holds i before (some m) after is place =
      let here : MessageAt body.messages i = record {
        before = before;
        message = some m;
        after = after;
        is = is;
        place = place;
      } in
      checked_map-Holds
        (λ (fields : Text × Text). (m.role ≡ given fields.0) × (m.content ≡ given fields.1))
        (λ checked. some m ≡ written checked) IsWrong _ _ (λ fields h. written_eq m fields h.0 h.1)
        (both-Holds (λ role. m.role ≡ given role) (λ content. m.content ≡ given content) IsWrong _ _
          (required-Holds IsWrong (role_field i) m.role (λ e. (here, m, refl, e)))
          (required-Holds IsWrong (content_field i) m.content (λ e. (here, m, refl, e))))

  check_items-Holds :
      (i : ℕ) (before items : List (Option MessageBody))
      → body.messages ≡ given (before ++ items)
      → length before ≡ i
      → Holds (λ checked. items ≡ map written checked) IsWrong (check_items i items)
  unfolding check_items
  check_items-Holds i before [] is place = refl
  check_items-Holds i before (m ∷ rest) is place =
      checked_map-Holds
        (λ (items : ChatMessage × List ChatMessage).
          (m ≡ written items.0) × (rest ≡ map written items.1))
        (λ checked. m ∷ rest ≡ map written checked) IsWrong _ _ (λ items h. cc (h.0, h.1))
        (both-Holds (λ checked. m ≡ written checked) (λ checked. rest ≡ map written checked) IsWrong
          _ _ (check_message-Holds i before m rest is place)
          (check_items-Holds (suc i) (before ++ m ∷ []) rest
            (is ∙ ap given (sym (append_assoc before (m ∷ []) rest)))
            (omega (arith, length-append before (m ∷ []), place))))

  map-not_empty :
      (ms : List ChatMessage) (m : Option MessageBody) (rest : List (Option MessageBody))
      → m ∷ rest ≡ map written ms
      → ms ≢ []
  map-not_empty [] m rest h e = cc h
  map-not_empty (c ∷ ms) m rest h e = cc e

  check_messages-Holds :
      (found : Given (List (Option MessageBody)))
      → body.messages ≡ found
      → Holds
          (λ checked. (found ≡ given (map written checked)) × (checked ≢ []))
          IsWrong
          (check_messages found)
  unfolding check_messages
  check_messages-Holds missing is = one_field IsWrong messages_field (inl (inl is))
  check_messages-Holds mistyped is = one_field IsWrong messages_field (inl (inr is))
  check_messages-Holds (given []) is = one_field IsWrong messages_field (inr is)
  check_messages-Holds (given (m ∷ rest)) is =
      Holds-imp (λ checked. m ∷ rest ≡ map written checked) _ IsWrong (check_items 0 (m ∷ rest))
        (λ checked e. (ap given e, map-not_empty checked m rest e))
        (check_items-Holds 0 [] (m ∷ rest) is refl)

  check_temperature-Holds :
      (found : Given (Option F))
      → body.temperature ≡ found
      → Holds
          (λ value. IsGivenOr none found value × ((x : F) → value ≡ some x → is_within x ≡ true))
          IsWrong
          (check_temperature is_within found)
  unfolding check_temperature
  check_temperature-Holds missing is = (inr (refl, refl), λ x e. cc e)
  check_temperature-Holds mistyped is = one_field IsWrong temperature_field (inl is)
  check_temperature-Holds (given none) is = (inl refl, λ x e. cc e)
  check_temperature-Holds (given (some x)) is = elim (Bool-cases (is_within x)) [
    | inl within ↦ rw within (inl refl, λ y e. (let same : x ≡ y = cc e in rw (← same) within))
    | inr beyond ↦ rw beyond (one_field IsWrong temperature_field (inr (x, is, beyond)))
  ]

  check_max_tokens-Holds :
      (found : Given (Option ℤ))
      → body.max_tokens ≡ found
      → Holds
          (λ value.
            ((found ≡ given (written_tokens value)) ⊎ ((found ≡ missing) × (value ≡ some 1024)))
            × ((n : ℕ) → value ≡ some n → 0 < n))
          IsWrong
          (check_max_tokens found)
  unfolding check_max_tokens
  check_max_tokens-Holds missing is =
      (inr (refl, refl), λ n e. (let same : 1024 ≡ n = cc e in omega arith))
  check_max_tokens-Holds mistyped is = one_field IsWrong max_tokens_field (inl is)
  check_max_tokens-Holds (given none) is = (inl refl, λ n e. cc e)
  check_max_tokens-Holds (given (some (pos zero))) is =
      one_field IsWrong max_tokens_field
        (inr (pos zero, is, λ n h e. (let same : 0 ≡ n = cc e in absurd (omega arith))))
  check_max_tokens-Holds (given (some (pos (suc k)))) is =
      (inl refl, λ n e. (let same : suc k ≡ n = cc e in omega arith))
  check_max_tokens-Holds (given (some (negsuc k))) is =
      one_field IsWrong max_tokens_field (inr (negsuc k, is, λ n h e. cc e))

  check_stream-Holds :
      (found : Given Bool)
      → body.stream ≡ found
      → Holds (IsGivenOr false found) IsWrong (check_stream found)
  check_stream-Holds missing is = inr (refl, refl)
  check_stream-Holds mistyped is = one_field IsWrong stream_field is
  check_stream-Holds (given stream) is = inl refl

  check_body-Answers : Answers (check_body is_within body)
  unfolding check_body
  check_body-Answers =
      checked_map-Holds _ IsRequest IsWrong _ _
        (λ fields h. record {
          model = h.0;
          messages = h.1.0.0;
          not_empty = h.1.0.1;
          temperature = h.1.1.0.0;
          within = h.1.1.0.1;
          max_tokens = h.1.1.1.0.0;
          positive = h.1.1.1.0.1;
          stream = h.1.1.1.1;
        })
        (both-Holds _ _ IsWrong _ _ (required-Holds IsWrong model_field body.model (λ e. e)) (
          both-Holds _ _ IsWrong _ _ (check_messages-Holds body.messages refl) (
            both-Holds _ _ IsWrong _ _ (check_temperature-Holds body.temperature refl) (
              both-Holds _ _ IsWrong _ _ (check_max_tokens-Holds body.max_tokens refl)
                (check_stream-Holds body.stream refl)))))

module _ {F : Type 0} (is_within : F → Bool) where
  -- The answer to a body that is no JSON object is an error at the body; that to any other is its
  -- request, or errors at fields that are wrong.
  abbrev pub AnswersPosted :
      Option (ChatCompletionBody F) → Checked (ChatCompletionRequest F) → Type 0
  AnswersPosted none checked = checked ≡ violated (body_field ∷ [])
  AnswersPosted (some body) checked = Answers is_within body checked

  -- A body that is no JSON object has an error. Any other is taken exactly as the request that it
  -- writes out, with the defaults of what is missing, where every value has its field's type and no
  -- constraint is violated; or every error is at a field that is wrong, and there is one.
  pub validate-Answers :
      (body : Option (ChatCompletionBody F)) → AnswersPosted body (validate is_within body)
  unfolding validate
  validate-Answers none = refl
  validate-Answers (some body) = check_body-Answers is_within body
