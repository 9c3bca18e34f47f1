-- ===== src/Completions/Whole.antt =====
-- The whole route keeps what its parts keep.
use llmgov.Base.{inl, inr, Bool, Text}
use llmgov.Auth.{Headers}
use llmgov.Models.{ChatCompletionRequest}
use llmgov.Externals.{Externals, ModelResponse}
use llmgov.Completions.{Moments, Gateway}
use llmgov.Completions.Route.{
  admit, ask, finish, respond, chat_completions, chat_completions-stop, chat_completions-next,
}
use llmgov.Completions.Keeps.{Keeps, Keeps-bind, Step-cases}
use llmgov.Completions.Admission.{IsUntouched, admit-IsUntouched}

module _ (e : Externals) (at : Moments e) (trace_id : Text) (request : ChatCompletionRequest e.F)
    (P : Gateway e → Type 0) (untouched : (g g' : Gateway e) → IsUntouched g g' → P g → P g')
    (ask_keeps : Keeps P (ask e at trace_id request))
    (finish_keeps : (admitted : Text × Text) (asked : (ModelResponse × Bool) × (e.F × Bool))
      → Keeps P (finish e at trace_id request admitted asked)) where
  pub respond-keeps :
      (admitted : Text × Text) (g : Gateway e)
      → P g
      → P (respond e at trace_id request admitted g).1
  unfolding respond
  respond-keeps admitted g h =
      (Keeps-bind (ask e at trace_id request) (finish e at trace_id request admitted) ask_keeps
          (finish_keeps admitted)).at
        g h

  pub chat_completions-keeps :
      (headers : Headers) (g : Gateway e)
      → P g
      → P (chat_completions e at trace_id request headers g).1
  chat_completions-keeps headers g h =
      let g' = (admit e at trace_id request headers g).1 in
      let after = untouched g g' (admit-IsUntouched e at trace_id request headers g) h in
      elim (Step-cases (admit e at trace_id request headers g).0) [
        | inl (admitted, a) ↦
            rw (chat_completions-next e at trace_id request headers g admitted a)
              (respond-keeps admitted g' after)
        | inr (end, a) ↦ rw (chat_completions-stop e at trace_id request headers g end a) after
      ]
