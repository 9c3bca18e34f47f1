-- ===== src/Middleware/Trace.antt =====
-- The id that a reply carries.
use llmgov.Base.{
  ◌≡◌, refl, ◌⊎◌, inl, inr, Bool, false, Option, none, some, [], ◌∷◌, Text, codes, is_empty, arith,
}
use llmgov.Auth.{Headers}
use llmgov.Models.{ChatCompletionRequest}
use llmgov.Externals.{Externals}
use llmgov.Completions.{End, completed, refused, raised, Failure, Moments, Gateway}
use llmgov.Completions.Route.{chat_completions}
use llmgov.Completions.Refusal.{refused-IsUntouched}
use llmgov.Middleware.{
  Called, responded, threw, Body, completion_body, route_error, internal_error, health_body,
  invalid_fields, generic, reply_of, called_of, trace_id_of, request_id_of, serve,
}

-- The id that an error of the route shows in its body: an empty one is unknown to the route, not to
-- the middleware. A completion shows the id of the request that it was made for, which a cached one
-- keeps. The other bodies are not the route's.
abbrev pub ErrorShows : Text → Body → Type 0
ErrorShows id (completion_body result) = Unit
ErrorShows id (route_error kind shown) =
    ((is_empty id ≡ false) × (shown ≡ id)) ⊎ ((id ≡ []) × (shown ≡ codes "unknown"))
ErrorShows id (internal_error message shown detail) = shown ≡ id
ErrorShows id (health_body status service version timestamp) = ⊥
ErrorShows id (invalid_fields fields) = ⊥

shown_as :
    (id shown : Text)
    → shown ≡ trace_id_of (some id)
    → ((is_empty id ≡ false) × (shown ≡ id)) ⊎ ((id ≡ []) × (shown ≡ codes "unknown"))
unfolding trace_id_of
shown_as [] shown h = inr (refl, h)
shown_as (c ∷ t) shown h = inl (refl, h)

module _ (e : Externals) (at : Moments e) (request : ChatCompletionRequest e.F) (headers : Headers)
    (traceback fresh : Text) (debug : Bool) (context : Option Text) (g : Gateway e) where
  abbrev id : Text
  id = request_id_of fresh headers.x_request_id

  abbrev ended : End
  ended = (chat_completions e at (trace_id_of (some id)) request headers g).0

  shows :
      (end : End) → ended ≡ end → ErrorShows id (reply_of traceback debug id (called_of end)).body
  unfolding reply_of called_of
  shows (completed result) h = tt
  shows (refused status kind shown) h =
      shown_as id shown
        (refused-IsUntouched e at (trace_id_of (some id)) request headers g status kind shown h).1.0
  shows (raised failure) h = refl

  replied_id : (called : Called) → (reply_of traceback debug id called).request_id ≡ some id
  unfolding reply_of
  replied_id (responded response) = refl
  replied_id (threw failure) = refl

  fails :
      (end : End)
      → ended ≡ end
      → debug ≡ false
      → (reply_of traceback debug id (called_of end)).status ≡ 500
      → ((failure : Failure) × (end ≡ raised failure))
        × ((reply_of traceback debug id (called_of end)).body ≡ internal_error generic id none)
  unfolding reply_of called_of
  fails (completed result) h quiet s = absurd (omega arith)
  fails (refused status kind shown) h quiet s =
      let reason =
        (refused-IsUntouched e at (trace_id_of (some id)) request headers g status kind shown
          h).1.1 in
      ground (arith, reason, s)
  fails (raised failure) h quiet s = ((failure, refl), rw quiet refl)

  -- Whatever becomes of a request to the route: its reply has the X-Request-ID of the request, or the
  -- fresh one where it came with none; the context variable is as it was before; and the body is a
  -- completion, or an error that shows the id, where an empty id is shown as "unknown" by the route's
  -- own errors.
  pub serve-traced :
      let (response, context', g') = serve e at request headers traceback fresh debug context g in
      (response.request_id ≡ some id) × (context' ≡ context) × ErrorShows id response.body
  unfolding serve reply_of
  serve-traced = (replied_id (called_of ended), refl, shows ended refl)

  -- Outside of debug mode a reply has status 500 only where an exception has left the route, and
  -- then its body has the generic message, the id and no traceback.
  pub serve-failed :
      debug ≡ false
      → (serve e at request headers traceback fresh debug context g).0.status ≡ 500
      → ((failure : Failure) × (ended ≡ raised failure))
        × ((serve e at request headers traceback fresh debug context g).0.body
            ≡ internal_error generic id none)
  unfolding serve
  serve-failed quiet s = fails ended refl quiet s
