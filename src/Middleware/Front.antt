-- ===== src/Middleware/Front.antt =====
-- A posted completion from the application's front: validated, answered by the route, and what of
-- it reaches a provider.
use llmgov.Base.{◌≡◌, ◌≢◌, ◌⊎◌, inl, inr, refl, Bool, Option, none, some, List, [], ◌∷◌, Text, All}
use llmgov.Auth.{Headers}
use llmgov.Models.{ChatCompletionRequest}
use llmgov.Models.Validation.{
  ChatCompletionBody, Field, body_field, Checked, valid, violated, validate,
}
use llmgov.Models.Validation.Sound.{IsRequest, IsWrong, AnswersPosted, validate-Answers}
use llmgov.Externals.{Externals}
use llmgov.Completions.{Moments, Gateway}
use llmgov.Completions.Privacy.{IsClean, chat_completions-IsClean}
use llmgov.Middleware.{
  Response, invalid_fields, trace_id_of, request_id_of, reply_of, dispatch, route, serve,
}
use llmgov.Middleware.Application.{completion, posted, routed, answer}

module _ {e : Externals} (is_within : e.F → Bool) (traceback fresh : Text) (debug : Bool)
    (headers : Headers) (at : Moments e) (posted_body : Option (ChatCompletionBody e.F))
    (context : Option Text) (g : Gateway e) where
  -- What an error of the answer is at: the body, where it is no JSON object, and otherwise a field
  -- that is wrong.
  abbrev pub IsErrorIn : Option (ChatCompletionBody e.F) → Field → Type 0
  IsErrorIn none field = field ≡ body_field
  IsErrorIn (some body) field = IsWrong is_within body field

  -- A body with something wrong is answered by status 422 and the fields, and changes nothing.
  pub record IsTurnedAway (after : Response × Option Text × Gateway e) : Type 0 where
    pub fields : List Field
    pub some_field : fields ≢ []
    pub wrong : All (IsErrorIn posted_body) fields
    pub status : after.0.status ≡ 422
    pub shown : after.0.body ≡ invalid_fields fields
    pub kept : after.2 ≡ g

  -- Any other is served as the request that it writes out, and what is sent of it is clean.
  pub record IsServed (after : Response × Option Text × Gateway e) : Type 0 where
    pub request : ChatCompletionRequest e.F
    pub body : ChatCompletionBody e.F
    pub object : posted_body ≡ some body
    pub read : IsRequest is_within body request
    pub served : after ≡ serve e at request headers traceback fresh debug context g
    pub clean : All (IsClean e request) after.2.sent

  posted-cases :
      (of : Option (ChatCompletionBody e.F)) (checked : Checked (ChatCompletionRequest e.F))
      → posted_body ≡ of
      → AnswersPosted is_within of checked
      → g.sent ≡ []
      → let after =
          dispatch traceback fresh debug headers.x_request_id
            (posted e at headers checked)
            context
            g in
        IsTurnedAway after ⊎ IsServed after
  unfolding dispatch posted serve route reply_of
  posted-cases none checked of answers unsent = rw answers (
      inl (record {
        fields = body_field ∷ [];
        some_field = λ e. cc e;
        wrong = rw of (refl, tt);
        status = refl;
        shown = refl;
        kept = refl;
      }))
  posted-cases (some body) (valid request) of read unsent =
      let id = trace_id_of (some (request_id_of fresh headers.x_request_id)) in
      inr (record {
        request = request;
        body = body;
        object = of;
        read = read;
        served = refl;
        clean = chat_completions-IsClean e at id request headers g read.not_empty (rw unsent tt);
      })
  posted-cases (some body) (violated fields) of (some_field, wrong) unsent = inl (record {
    fields = fields;
    some_field = some_field;
    wrong = rw of wrong;
    status = refl;
    shown = refl;
    kept = refl;
  })

  -- Whatever body is posted to an application that has sent nothing yet: it is answered by status
  -- 422 and errors, at least one, at fields that are missing, have a value of another type or violate
  -- a constraint, or at the body itself where that is no JSON object, and nothing is changed; or the
  -- values in it, with the defaults of those that are missing, have the types of their fields, meet
  -- every constraint and are served as a request,
  -- of which providers are sent only the messages with every content redacted, and redacted texts to
  -- embed.
  pub answer-IsClean :
      g.sent ≡ []
      → let after =
          answer is_within traceback fresh debug headers (completion at posted_body) context g in
        IsTurnedAway after ⊎ IsServed after
  unfolding answer routed
  answer-IsClean unsent =
      posted-cases posted_body (validate is_within posted_body) refl
        (validate-Answers is_within posted_body) unsent
