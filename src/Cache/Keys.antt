-- ===== src/Cache/Keys.antt =====
-- Which entries share a key.
use mathlib.Core.List.{append_assoc}
use llmgov.Base.{
  ℕ, arith, head-eq, ◌≡◌, ◌≢◌, ◌++◌, Text, codes, Lacks, append_cancel_left, split_first,
  split_last,
}
use llmgov.Cache.{build_vector_cache_key, build_payload_cache_key}

-- Two entries share a payload key only if they agree in prompt version, model and hash, where the
-- versions and the hashes have no colon in them; the models may have any.
pub payload_key_inj :
    (version version' model model' hash hash' : Text)
    → Lacks b':' version
    → Lacks b':' version'
    → Lacks b':' hash
    → Lacks b':' hash'
    → build_payload_cache_key version model hash ≡ build_payload_cache_key version' model' hash'
    → (version ≡ version') × (model ≡ model') × (hash ≡ hash')
unfolding build_payload_cache_key
payload_key_inj version version' model model' hash hash' lv lv' lh lh' e =
    let rest = append_cancel_left (codes "llmgov:cache:payload:") _ _ e in
    let (same_version, rest') = split_first b':' version version' _ _ lv lv' rest in
    let (same_model, same_hash) = split_last b':' model model' hash hash' lh lh' rest' in
    (same_version, same_model, same_hash)

-- A version with a colon in it shares its payload key with a shorter version and a longer model.
pub payload_key_clash :
    (version part model hash : Text)
    → build_payload_cache_key (version ++ (codes ":" ++ part)) model hash
      ≡ build_payload_cache_key version (part ++ (codes ":" ++ model)) hash
unfolding build_payload_cache_key
payload_key_clash version part model hash = simp append_assoc

-- A vector and a payload never share a key.
pub vector_key-ne-payload_key :
    (version version' model model' hash hash' : Text)
    → build_vector_cache_key version model hash ≢ build_payload_cache_key version' model' hash'
unfolding build_vector_cache_key build_payload_cache_key
vector_key-ne-payload_key version version' model model' hash hash' e =
    let different : ◌≡◌ {A = ℕ} b'v' b'p' =
      head-eq (append_cancel_left (codes "llmgov:cache:") _ _ e) in
    absurd (omega arith)
