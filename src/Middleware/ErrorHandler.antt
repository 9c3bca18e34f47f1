-- ===== src/Middleware/ErrorHandler.antt =====
-- app/middleware/error_handler.py: the handler that `register_exception_handlers` registers.
use llmgov.Base.{◌≡◌, refl, Bool, true, false, Option, none, some, Text, is_empty, if◌then◌else◌}
use llmgov.Completions.{Failure}
use llmgov.Middleware.{Response, internal_error, generic, text_of, threw, trace_id_of, reply_of}

-- The trace id is `get_request_id() or "unknown"`; `debug` is `logger.isEnabledFor(10)`.
unfoldable pub unhandled_exception_handler : Text → Bool → Option Text → Failure → Response
unfolding trace_id_of
unhandled_exception_handler traceback debug context failure =
    let trace_id = trace_id_of context in
    let detail : Option Text = if debug then some traceback else none in
    let has_detail : Bool = elim detail [
      | none ↦ false
      | some given ↦ if is_empty given then false else true
    ] in
    record {
      status = 500;
      request_id = some trace_id;
      body =
          internal_error (if has_detail then text_of failure else generic) trace_id
            (if has_detail then detail else none);
    }

-- The handler and the middleware, which catches the same exceptions, give one reply inside of a
-- request whose id is not empty, with and without debug mode.
pub unhandled_exception_handler-reply_of :
    (traceback request_id : Text) (debug : Bool) (failure : Failure)
    → is_empty request_id ≡ false
    → unhandled_exception_handler traceback debug (some request_id) failure
      ≡ reply_of traceback debug request_id (threw failure)
unfolding unhandled_exception_handler reply_of trace_id_of
unhandled_exception_handler-reply_of traceback request_id false failure h = rw h refl
unhandled_exception_handler-reply_of traceback request_id true failure h = rw h refl
