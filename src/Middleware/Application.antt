-- ===== src/Middleware/Application.antt =====
-- app/main.py: the health check, the routes behind the middleware, and the lifespan hook.
use llmgov.Base.{◌≡◌, refl, Bool, Option, none, some, Text, codes}
use llmgov.Redis.{Redis, Client, start, stop}
use llmgov.Auth.{Headers}
use llmgov.Models.{ChatCompletionRequest}
use llmgov.Models.Validation.{ChatCompletionBody, Checked, valid, violated, validate}
use llmgov.Externals.{Externals}
use llmgov.Completions.{Moments, Gateway}
use llmgov.Middleware.{
  health_body, invalid_fields, Response, Called, responded, reply_of, request_id_of, dispatch,
  route,
}

abbrev pub version : Text
version = codes "0.1.0"

unfoldable pub health_check : Text → Response
health_check timestamp = record {
  status = 200;
  request_id = none;
  body = health_body (codes "healthy") (codes "llmgov-gateway") version timestamp;
}

-- What a client asks the application for: `GET /health` at a time, or a completion, with its body,
-- or none where the body is no JSON object.
pub data Call (e : Externals) : Type 0 where
  health : Text → Call e
  completion : Moments e → Option (ChatCompletionBody e.F) → Call e

-- FastAPI answers a body that does not validate itself, and calls the route with any other.
unfoldable pub posted :
    (e : Externals) (at : Moments e) (headers : Headers)
    → Checked (ChatCompletionRequest e.F)
    → Option Text
    → Gateway e
    → Called × (Option Text × Gateway e)
posted e at headers (valid request) context g = route e at request headers context g
posted e at headers (violated fields) context g = (
  responded (record { status = 422; request_id = none; body = invalid_fields fields }),
  (context, g),
)

module _ {e : Externals} (is_within : e.F → Bool) where
  unfoldable pub routed :
      Headers → Call e → Option Text → Gateway e → Called × (Option Text × Gateway e)
  unfolding health_check posted
  routed headers (health timestamp) context g = (responded (health_check timestamp), (context, g))
  routed headers (completion at body) context g =
      posted e at headers (validate is_within body) context g

  -- A call of the application, from the context it is made in.
  unfoldable pub answer :
      (traceback fresh : Text) (debug : Bool)
      → Headers
      → Call e
      → Option Text
      → Gateway e
      → Response × Option Text × Gateway e
  unfolding routed
  answer traceback fresh debug headers call context g =
      dispatch traceback fresh debug headers.x_request_id (routed headers call) context g

-- The client while the application runs, or none where the start fails; and after its end.
unfoldable pub lifespan : (r : Redis) → r.Db → (Bool × Client r) × Client r
lifespan r db = let started = start r db in (started, stop r started.1)

-- In every state of the gateway, whatever fails in it, a health check is answered by status 200 and
-- the request's own id and changes nothing.
pub answer-health_check :
    (e : Externals) (is_within : e.F → Bool) (traceback fresh timestamp : Text) (debug : Bool)
    (headers : Headers) (context : Option Text) (g : Gateway e)
    → answer {e = e} is_within traceback fresh debug headers (health timestamp) context g ≡ (
      record (health_check timestamp) {
        request_id = some (request_id_of fresh headers.x_request_id);
      },
      context,
      g,
    )
unfolding answer dispatch routed reply_of
answer-health_check e is_within traceback fresh timestamp debug headers context g = refl
