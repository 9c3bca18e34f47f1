-- ===== src/Cache.antt =====
-- app/core/cache_keys.py and app/core/cache.py. `sha256` is the hexadecimal digest of the UTF-8
-- encoding; `lower` is `str.lower`, the Unicode case mapping; JSON texts are made and read by the functions
-- of `Json`.
pub mod Keys
pub mod Hash
pub mod Store
use llmgov.Base.{
  ℕ, Option, none, some, List, [], ◌∷◌, ◌++◌, Text, codes, strip, is_empty, if◌then◌else◌,
}
use llmgov.Redis.{Redis, Client, Command, setex}
use llmgov.Models.{ChatMessage}

unfoldable pub build_vector_cache_key : Text → Text → Text → Text
build_vector_cache_key prompt_version model embedding_hash =
    codes "llmgov:cache:vector:"
    ++ (prompt_version ++ (codes ":" ++ (model ++ (codes ":" ++ embedding_hash))))

unfoldable pub build_payload_cache_key : Text → Text → Text → Text
build_payload_cache_key prompt_version model embedding_hash =
    codes "llmgov:cache:payload:"
    ++ (prompt_version ++ (codes ":" ++ (model ++ (codes ":" ++ embedding_hash))))

abbrev pub get_default_cache_ttl : ℕ
get_default_cache_ttl = 86400

-- `str(...).strip().lower()`
unfoldable pub normalize : (Text → Text) → Text → Text
normalize lower text = lower (strip text)

-- The loop of `hash_embedding_stub` over the messages, each as its role and content.
unfoldable pub normalized_text : (Text → Text) → List ChatMessage → Text
normalized_text lower [] = []
normalized_text lower (m ∷ rest) =
    normalize lower m.role
    ++ (codes ":" ++ (normalize lower m.content ++ (codes "|" ++ normalized_text lower rest)))

unfoldable pub hash_embedding_stub : (Text → Text) → (Text → Text) → List ChatMessage → Text
hash_embedding_stub sha256 lower messages = sha256 (normalized_text lower messages)

-- `json.dumps` and `json.loads` for values of a type; `loads` gives `none` where it raises.
pub record Json (V : Type 0) : Type 0 where
  pub dumps : V → Text
  pub loads : Text → Option V

module _ (r : Redis) {V : Type 0} (json : Json V) where
  -- `if cached_data` on the reply, then `json.loads` inside the `try`.
  parsed : Option (Option Text) → Option V
  parsed none = none
  parsed (some none) = none
  parsed (some (some cached_data)) = if is_empty cached_data then none else json.loads cached_data

  unfoldable pub get_cached_completion : Text → Text → Text → ℕ → Client r → Option V
  unfolding parsed
  get_cached_completion prompt_version model prompt_hash now none = none
  get_cached_completion prompt_version model prompt_hash now (some db) =
      parsed (r.get now (build_payload_cache_key prompt_version model prompt_hash) db)

  unfoldable pub set_commands : Text → Text → Text → V → Text → List Command
  set_commands prompt_version model prompt_hash payload vector_json =
      setex (build_vector_cache_key prompt_version model prompt_hash) get_default_cache_ttl
        vector_json
      ∷ setex (build_payload_cache_key prompt_version model prompt_hash) get_default_cache_ttl
          (json.dumps payload)
      ∷ []

  -- A failure is logged and dropped. `vector_json` is `json.dumps(vector)`.
  unfoldable pub set_cached_completion : Text → Text → Text → V → Text → ℕ → Client r → Client r
  unfolding set_commands
  set_cached_completion prompt_version model prompt_hash payload vector_json now none = none
  set_cached_completion prompt_version model prompt_hash payload vector_json now (some db) =
      some
        (r.transaction now (set_commands prompt_version model prompt_hash payload vector_json) db).1
