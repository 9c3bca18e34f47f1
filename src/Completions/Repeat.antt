-- ===== src/Completions/Repeat.antt =====
-- A response is what the next request for the same conversation is answered with.
use llmgov.Base.{
  ℕ, ◌+◌, ◌*◌, ◌==◌, ◌≡◌, ◌≢◌, ◌≤◌, ◌<◌, ◌⊎◌, refl, ◌∙◌, inl, inr, true, false, Option, none, some,
  List, [], ◌∷◌, Text, codes, is_empty, Bool-cases, arith, append_cancel_left, head-eq,
}
use llmgov.Redis.{Redis, Client, incr, expire}
use llmgov.Auth.{Headers, app, authenticate_api_key, raw_key_of}
use llmgov.RateLimit.{answer, unavailable, check_rate_limit, rate_key, window_start}
use llmgov.Models.{ChatCompletionRequest, ChatCompletionResponse}
use llmgov.Cache.{
  Json, build_payload_cache_key, get_default_cache_ttl, hash_embedding_stub, set_commands,
  get_cached_completion, set_cached_completion,
}
use llmgov.Cache.Store.{KeepsValues, RoundTrips, get-set_self}
use llmgov.Externals.{Externals, version}
use llmgov.Completions.{Moments, Gateway, stop, completed}
use llmgov.Completions.Checks.{
  authenticate, limit_rate, reject_streaming, select_prompt, read_cache,
}
use llmgov.Completions.Route.{admit, chat_completions, chat_completions-stop}
use llmgov.Completions.Admission.{IsUntouched, admit-IsUntouched}

-- What Redis documents of INCR and EXPIRE: other keys keep what they hold.
pub record LeavesOthers (r : Redis) : Type 0 where
  pub kept :
      (now ttl t : ℕ) (key other : Text) (db : r.Db)
      → other ≢ key
      → r.get t other (r.transaction now (incr key ∷ expire key ttl ∷ []) db).1 ≡ r.get t other db

payload_key-ne-rate_key :
    (prompt_version model hash app_id : Text) (start : ℕ)
    → build_payload_cache_key prompt_version model hash ≢ rate_key app_id start
unfolding build_payload_cache_key rate_key
payload_key-ne-rate_key prompt_version model hash app_id start e =
    let h : ◌≡◌ {A = ℕ} b'c' b'r' = head-eq (append_cancel_left (codes "llmgov:") _ _ e) in
    absurd (omega (arith, h))

module _ {r : Redis} (law : LeavesOthers r) {V : Type 0} (json : Json V) where
  -- Counting a request leaves the cache as it is.
  get-check_rate_limit :
      (prompt_version model hash app_id : Text) (limit window now t : ℕ) (client : Client r)
      → get_cached_completion r json prompt_version model hash t
          (check_rate_limit r app_id limit window now client).1
        ≡ get_cached_completion r json prompt_version model hash t client
  unfolding get_cached_completion check_rate_limit
  get-check_rate_limit prompt_version model hash app_id limit window now t none =
      elim (Bool-cases (is_empty app_id)) [
        | inl missing ↦ rw missing refl
        | inr named ↦ elim (Bool-cases (window == 0)) [
          | inl instant ↦ rw named (rw instant refl)
          | inr lasting ↦ rw named (rw lasting refl)
        ]
      ]
  get-check_rate_limit prompt_version model hash app_id limit window now t (some db) =
      elim (Bool-cases (is_empty app_id)) [
        | inl missing ↦ rw missing refl
        | inr named ↦ elim (Bool-cases (window == 0)) [
          | inl instant ↦ rw named (rw instant refl)
          | inr lasting ↦ rw named (
              rw lasting (
                rw
                  (law.kept now (window * 2) t (rate_key app_id (window_start window now))
                    (build_payload_cache_key prompt_version model hash) db
                    (payload_key-ne-rate_key prompt_version model hash app_id
                      (window_start window now)))
                  refl))
        ]
      ]

module _ (e : Externals) (at : Moments e) (trace_id : Text) (request : ChatCompletionRequest e.F)
    (headers : Headers) (g : Gateway e) where
  -- A request that passes the checks in front of the cache and finds a response there.
  admit-cached :
      (app_id prompt_version : Text) (payload : e.Payload) (result : ChatCompletionResponse)
      → authenticate_api_key e.redis e.sha256 (raw_key_of headers) at.authenticated_at g.client
        ≡ app app_id
      → (let check = (check_rate_limit e.redis app_id 60 60 at.rate_checked_at g.client).0 in
          (check ≡ answer true) ⊎ (check ≡ unavailable))
      → request.stream ≡ false
      → e.select_version (codes "default") ≡ version prompt_version
      → get_cached_completion e.redis e.json prompt_version request.model
          (hash_embedding_stub e.sha256 e.lower request.messages)
          at.cache_read_at
          (check_rate_limit e.redis app_id 60 60 at.rate_checked_at g.client).1
        ≡ some payload
      → e.is_empty_payload payload ≡ false
      → e.validate payload ≡ some result
      → (admit e at trace_id request headers g).0 ≡ stop (completed result)
  unfolding admit authenticate limit_rate reject_streaming select_prompt read_cache
  admit-cached app_id prompt_version payload result known allowed plain selected found full valid =
      elim allowed [
        | inl h ↦ rw (known, h, plain, selected, found, full, valid) refl
        | inr h ↦ rw (known, h, plain, selected, found, full, valid) refl
      ]

-- What is read from the cache is what its entry reads as.
get_cached-same :
    (e : Externals) (prompt_version model hash : Text) (t : ℕ) (db db' : e.redis.Db)
    → (let key = build_payload_cache_key prompt_version model hash in
        e.redis.get t key db ≡ e.redis.get t key db')
    → get_cached_completion e.redis e.json prompt_version model hash t (some db)
      ≡ get_cached_completion e.redis e.json prompt_version model hash t (some db')
unfolding get_cached_completion
get_cached-same e prompt_version model hash t db db' same = rw same refl

-- A response is stored whole where its dump validates to it and is not an empty dict.
pub record IsStorable (e : Externals) (result : ChatCompletionResponse) : Type 0 where
  pub full : e.is_empty_payload (e.model_dump result) ≡ false
  pub valid : e.validate (e.model_dump result) ≡ some result

-- The request is the authenticated application's, is not denied by the limiter, asks for no
-- stream, and is given the prompt version.
pub record IsAdmitted {e : Externals} (at : Moments e) (request : ChatCompletionRequest e.F)
    (headers : Headers) (g : Gateway e) (app_id prompt_version : Text) : Type 0 where
  pub known :
      authenticate_api_key e.redis e.sha256 (raw_key_of headers) at.authenticated_at g.client
      ≡ app app_id
  pub allowed :
      let check = (check_rate_limit e.redis app_id 60 60 at.rate_checked_at g.client).0 in
      (check ≡ answer true) ⊎ (check ≡ unavailable)
  pub plain : request.stream ≡ false
  pub selected : e.select_version (codes "default") ≡ version prompt_version

module _ {e : Externals} (law : KeepsValues e.redis) (others : LeavesOthers e.redis)
    (codec : RoundTrips e.json) (at : Moments e) (trace_id : Text)
    (request : ChatCompletionRequest e.F) (headers : Headers) (g : Gateway e)
    (app_id prompt_version : Text) (result : ChatCompletionResponse) where
  abbrev hash : Text
  hash = hash_embedding_stub e.sha256 e.lower request.messages

  -- Once the cache write that a fresh response has scheduled is done, an admitted request for the
  -- same model, prompt version and conversation is answered with that response, whatever its own
  -- trace id, until the entry's day is over, as long as what else is done to Redis in between leaves
  -- the entry as it reads: the breaker is not asked, nothing is sent to a provider and nothing is
  -- recorded. Redis keeps values, its counting leaves the cache alone, the read is
  -- answered, and JSON texts and the response's dump are read back as they were.
  pub chat_completions-repeated :
      IsStorable e result
      → IsAdmitted at request headers g app_id prompt_version
      → (vector_json : Text) (written_at : ℕ) (db after : e.redis.Db) (replies : List ℕ)
      → (e.redis.transaction written_at
          (set_commands e.redis e.json prompt_version request.model hash
            (e.model_dump result)
            vector_json)
          db).0
        ≡ some replies
      → set_cached_completion e.redis e.json prompt_version request.model hash
          (e.model_dump result)
          vector_json
          written_at
          (some db)
        ≡ some after
      → (now : e.redis.Db) → g.client ≡ some now
      → (let key = build_payload_cache_key prompt_version request.model hash in
          e.redis.get at.cache_read_at key now ≡ e.redis.get at.cache_read_at key after)
      → written_at ≤ at.cache_read_at
      → at.cache_read_at < written_at + get_default_cache_ttl
      → (found : Option Text)
      → e.redis.get at.cache_read_at
          (build_payload_cache_key prompt_version request.model hash)
          after
        ≡ some found
      → ((chat_completions e at trace_id request headers g).0 ≡ completed result)
        × IsUntouched g (chat_completions e at trace_id request headers g).1
  chat_completions-repeated storable admitted vector_json written_at db after replies went written
        now is left later soon found answered =
      let t = at.cache_read_at in
      let payload = e.model_dump result in
      let stored =
        get-set_self law codec prompt_version request.model hash payload vector_json written_at db
          replies went t later soon after written found answered in
      let read : get_cached_completion e.redis e.json prompt_version request.model hash t
            (check_rate_limit e.redis app_id 60 60 at.rate_checked_at g.client).1
          ≡ some payload =
        get-check_rate_limit others e.json prompt_version request.model hash app_id 60 60
          at.rate_checked_at t g.client
        ∙ rw is (get_cached-same e prompt_version request.model hash t now after left ∙ stored) in
      let stops =
        admit-cached e at trace_id request headers g app_id prompt_version payload result
          admitted.known admitted.allowed admitted.plain admitted.selected read storable.full
          storable.valid in
      rw (chat_completions-stop e at trace_id request headers g (completed result) stops)
        (refl, admit-IsUntouched e at trace_id request headers g)
