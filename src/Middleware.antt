-- ===== src/Middleware.antt =====
-- app/middleware/request_id.py: `RequestIDMiddleware.dispatch` and `get_request_id`, around the
-- completions route. The context variable is passed on; a traceback is made in debug mode only.
pub mod Trace
pub mod ErrorHandler
pub mod Application
pub mod Front
use llmgov.Base.{
  ℕ, Bool, true, false, Option, none, some, List, Text, codes, is_empty, if◌then◌else◌,
}
use llmgov.Auth.{Headers}
use llmgov.Models.{ChatCompletionRequest, ChatCompletionResponse}
use llmgov.Models.Validation.{Field}
use llmgov.Externals.{Externals}
use llmgov.Completions.{ErrorType, Failure, End, completed, refused, raised, Moments, Gateway}
use llmgov.Completions.Route.{chat_completions}

-- A message is the generic one, or the text of the exception.
pub data Message : Type 0 where
  generic : Message
  text_of : Failure → Message

pub data Body : Type 0 where
  completion_body : ChatCompletionResponse → Body
  route_error : ErrorType → Text → Body
  internal_error : Message → Text → Option Text → Body
  health_body : (status service version timestamp : Text) → Body
  -- FastAPI's answer to a body that is no request, with the fields that its errors are at
  invalid_fields : List Field → Body

-- A response, with its X-Request-ID header.
pub record Response : Type 0 where
  pub status : ℕ
  pub request_id : Option Text
  pub body : Body

-- What the application behind the middleware does: it responds, or an exception leaves it.
pub data Called : Type 0 where
  responded : Response → Called
  threw : Failure → Called

-- `get_request_id() or "unknown"`
unfoldable pub trace_id_of : Option Text → Text
trace_id_of none = codes "unknown"
trace_id_of (some request_id) = if is_empty request_id then codes "unknown" else request_id

-- `request.headers.get("X-Request-ID", str(uuid.uuid4()))`
unfoldable pub request_id_of : Text → Option Text → Text
request_id_of fresh none = fresh
request_id_of fresh (some given) = given

module _ (traceback : Text) (debug : Bool) (request_id : Text) where
  -- The branches of `dispatch` after the call. The source tests the detail, a text, for being empty.
  unfoldable pub reply_of : Called → Response
  reply_of (responded response) = record response { request_id = some request_id }
  reply_of (threw failure) =
      let has_detail = if debug then (if is_empty traceback then false else true) else false in
      record {
        status = 500;
        request_id = some request_id;
        body =
            internal_error (if has_detail then text_of failure else generic) request_id
              (if has_detail then some traceback else none);
      }

-- `_request_id_ctx.set(request_id)`: the token, which has the value before, and the value after.
abbrev pub set_context : Text → Option Text → Option Text × Option Text
set_context request_id context = (context, some request_id)

-- `_request_id_ctx.reset(token)`
abbrev pub reset_context : (token context : Option Text) → Option Text
reset_context token context = token

-- `dispatch`: the reply, the context variable afterwards, and the state that the call leaves. The call
-- is given the context variable and may leave another value in it.
unfoldable pub dispatch :
    {S : Type 0}
    → (traceback fresh : Text) (debug : Bool) → Option Text
    → (Option Text → S → Called × (Option Text × S))
    → Option Text
    → S
    → Response × Option Text × S
unfolding reply_of request_id_of
dispatch traceback fresh debug header call_next context s =
    let request_id = request_id_of fresh header in
    let (token, current) = set_context request_id context in
    let (called, (left, s')) = call_next current s in
    (reply_of traceback debug request_id called, reset_context token left, s')

-- The route's end as FastAPI sends it; an exception goes on to the middleware.
unfoldable pub called_of : End → Called
called_of (completed result) =
    responded (record { status = 200; request_id = none; body = completion_body result })
called_of (refused status kind trace_id) =
    responded (record { status = status; request_id = none; body = route_error kind trace_id })
called_of (raised failure) = threw failure

module _ (e : Externals) (at : Moments e) (request : ChatCompletionRequest e.F)
    (headers : Headers) where
  -- The route in its context.
  unfoldable pub route : Option Text → Gateway e → Called × (Option Text × Gateway e)
  unfolding called_of trace_id_of
  route context g =
      let (end, g') = chat_completions e at (trace_id_of context) request headers g in
      (called_of end, (context, g'))

  unfoldable pub serve :
      (traceback fresh : Text) (debug : Bool)
      → Option Text
      → Gateway e
      → Response × Option Text × Gateway e
  unfolding dispatch route
  serve traceback fresh debug context g =
      dispatch traceback fresh debug headers.x_request_id route context g
