-- ===== src/Completions/Refusal.antt =====
-- Requests that are refused, and requests that send anything to a provider.
use llmgov.Base.{◌≡◌, ap, sym, ◌∙◌, ◌⊎◌, inl, inr, ℕ, false, Text, arith}
use llmgov.Auth.{Headers, app, invalid_key, auth_unavailable, authenticate_api_key, raw_key_of}
use llmgov.RateLimit.{answer, check_rate_limit}
use llmgov.Models.{ChatCompletionRequest}
use llmgov.Externals.{Externals}
use llmgov.Completions.{
  stop, End, refused, ErrorType, invalid_api_key, service_unavailable, rate_limit_exceeded, Moments,
  Gateway,
}
use llmgov.Completions.Checks.{
  authenticate, limit_rate, reject_streaming, select_prompt, read_cache,
}
use llmgov.Completions.Calls.{start_embedding, call_primary, or_fallback, check_jailbreak}
use llmgov.Completions.Finish.{write_metrics, add_tasks}
use llmgov.Completions.Route.{
  admit, ask, finish, respond, chat_completions, chat_completions-stop, chat_completions-next,
}
use llmgov.Completions.Keeps.{Step-cases}
use llmgov.Completions.Admission.{IsUntouched, admit-IsUntouched}

-- An end that is no refusal.
abbrev IsRefused : End → Type 0
IsRefused (refused status kind trace_id) = Unit
IsRefused _ = ⊥

module _ (e : Externals) (at : Moments e) (trace_id : Text) (request : ChatCompletionRequest e.F)
    (headers : Headers) where
  ask-not-IsRefused :
      (g : Gateway e) (end : End) → (ask e at trace_id request g).0 ≡ stop end → ¬ IsRefused end
  unfolding ask start_embedding call_primary or_fallback check_jailbreak
  ask-not-IsRefused g end h r = ground arith

  abbrev pub Reason : Gateway e → ℕ → ErrorType → Text → Type 0
  Reason g status kind shown =
      (shown ≡ trace_id)
      × (((status ≡ 401)
            × (kind ≡ invalid_api_key)
            × (authenticate_api_key e.redis e.sha256 (raw_key_of headers) at.authenticated_at
                  g.client
                ≡ invalid_key))
          ⊎ (((status ≡ 503)
                × (kind ≡ service_unavailable)
                × (authenticate_api_key e.redis e.sha256 (raw_key_of headers) at.authenticated_at
                      g.client
                    ≡ auth_unavailable))
              ⊎ ((status ≡ 429)
                  × (kind ≡ rate_limit_exceeded)
                  × ((app_id : Text) × (authenticate_api_key e.redis e.sha256 (raw_key_of headers)
                          at.authenticated_at g.client
                        ≡ app app_id)
                      × ((check_rate_limit e.redis app_id 60 60 at.rate_checked_at g.client).0
                          ≡ answer false)))))

  admit-refused :
      (g : Gateway e) (status : ℕ) (kind : ErrorType) (shown : Text)
      → (admit e at trace_id request headers g).0 ≡ stop (refused status kind shown)
      → Reason g status kind shown
  unfolding admit authenticate limit_rate reject_streaming select_prompt read_cache
  admit-refused g status kind shown h = ground arith

  respond-not-IsRefused :
      (admitted : Text × Text) (g : Gateway e)
      → ¬ IsRefused (respond e at trace_id request admitted g).0
  unfolding respond finish write_metrics add_tasks
  respond-not-IsRefused (a, v) g r = elim (Step-cases (ask e at trace_id request g).0) [
    | inl (((x, used), (s, j)), h) ↦ rw h at r
    | inr (end, h) ↦ ask-not-IsRefused g end h (rw h at r)
  ]

  -- A refusal shows the request's own trace id and has its reason: 401 for an invalid key, 503 for
  -- authentication that is unavailable, 429 for an application that the limiter denies. It leaves
  -- the breaker alone, and nothing is sent to a provider, stored or scheduled.
  pub refused-IsUntouched :
      (g : Gateway e) (status : ℕ) (kind : ErrorType) (shown : Text)
      → (chat_completions e at trace_id request headers g).0 ≡ refused status kind shown
      → IsUntouched g (chat_completions e at trace_id request headers g).1
        × Reason g status kind shown
  refused-IsUntouched g status kind shown h =
      elim (Step-cases (admit e at trace_id request headers g).0) [
        | inl (admitted, a) ↦
            let same = chat_completions-next e at trace_id request headers g admitted a in
            let ends : (respond e at trace_id request admitted
                  (admit e at trace_id request headers g).1).0
                ≡ refused status kind shown =
              sym (ap (λ p. p.0) same) ∙ h in
            absurd (
              respond-not-IsRefused admitted (admit e at trace_id request headers g).1 (rw ends tt))
        | inr (end, a) ↦
            let same = chat_completions-stop e at trace_id request headers g end a in
            rw same (
              admit-IsUntouched e at trace_id request headers g,
              admit-refused g status kind shown (a ∙ ap stop (sym (ap (λ p. p.0) same) ∙ h)),
            )
      ]
