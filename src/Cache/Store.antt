-- ===== src/Cache/Store.antt =====
-- What a read finds after a write.
use mathlib.Core.Option.{some-injective}
use llmgov.Base.{
  ℕ, ◌+◌, ◌≤◌, ◌<◌, ◌≡◌, ◌≢◌, ap, sym, ◌⊎◌, inl, inr, false, List, [], ◌∷◌, Option, some, Text,
  Lacks, is_empty,
}
use llmgov.Redis.{Redis, setex}
use llmgov.Cache.{
  build_payload_cache_key, get_default_cache_ttl, Json, parsed, get_cached_completion, set_commands,
  set_cached_completion,
}
use llmgov.Cache.Keys.{payload_key_inj, vector_key-ne-payload_key}

-- What Redis documents of two `SETEX` in one transaction that succeeds: until it expires a key has
-- the value set last, and other keys are as they were. A read that raises says nothing.
pub record KeepsValues (r : Redis) : Type 0 where
  pub stored :
      (now ttl : ℕ) (first value second value' : Text) (db : r.Db) (replies : List ℕ)
      → (r.transaction now (setex first ttl value ∷ setex second ttl value' ∷ []) db).0
        ≡ some replies
      → (t : ℕ) → now ≤ t
      → t < now + ttl
      → (found : Option Text)
      → r.get t second
          (r.transaction now (setex first ttl value ∷ setex second ttl value' ∷ []) db).1
        ≡ some found
      → found ≡ some value'
  pub untouched :
      (now ttl : ℕ) (first value second value' other : Text) (db : r.Db)
      → other ≢ first
      → other ≢ second
      → (t : ℕ)
      → r.get t other
          (r.transaction now (setex first ttl value ∷ setex second ttl value' ∷ []) db).1
        ≡ r.get t other db

-- What the JSON functions are relied on for: a text that is not empty, read back as it was.
pub record RoundTrips {V : Type 0} (json : Json V) : Type 0 where
  pub not_empty : (v : V) → is_empty (json.dumps v) ≡ false
  pub loads-dumps : (v : V) → json.loads (json.dumps v) ≡ some v

other_entry :
    (version version' model model' hash hash' : Text)
    → Lacks b':' version
    → Lacks b':' version'
    → Lacks b':' hash
    → Lacks b':' hash'
    → ((version ≢ version') ⊎ (model ≢ model')) ⊎ (hash ≢ hash')
    → build_payload_cache_key version model hash ≢ build_payload_cache_key version' model' hash'
other_entry version version' model model' hash hash' lv lv' lh lh' differ e =
    let (v, m, h) = payload_key_inj version version' model model' hash hash' lv lv' lh lh' e in
    elim differ [ inl (inl d) ↦ d v | inl (inr d) ↦ d m | inr d ↦ d h ]

module _ {r : Redis} (law : KeepsValues r) {V : Type 0} {json : Json V} (codec : RoundTrips json)
    (version model hash : Text) (payload : V) (vector_json : Text) (now : ℕ) (db : r.Db) where
  -- A completion written to the cache is read back whole until its day is over, whenever the write
  -- went through and the read is answered, by a Redis that keeps values as `KeepsValues` says and
  -- with JSON texts that are not empty and are read back as they were.
  pub get-set_self :
      (replies : List ℕ)
      → (r.transaction now (set_commands r json version model hash payload vector_json) db).0
        ≡ some replies
      → (t : ℕ) → now ≤ t
      → t < now + get_default_cache_ttl
      → (after : r.Db)
      → set_cached_completion r json version model hash payload vector_json now (some db)
        ≡ some after
      → (found : Option Text)
      → r.get t (build_payload_cache_key version model hash) after ≡ some found
      → get_cached_completion r json version model hash t (some after) ≡ some payload
  unfolding set_cached_completion get_cached_completion set_commands
  get-set_self replies e t le lt after written found answered =
      let same : (r.transaction now (set_commands r json version model hash payload vector_json)
            db).1
          ≡ after =
        some-injective _ _ written in
      let value =
        law.stored now get_default_cache_ttl _ vector_json _ (json.dumps payload) db replies e t le
          lt found (rw same answered) in
      rw (answered, value, codec.not_empty payload) (codec.loads-dumps payload)

  -- A write leaves every other entry as it was: one for another prompt version, another model or
  -- another conversation, with no colon in versions and hashes.
  pub get-set_other :
      (version' model' hash' : Text)
      → Lacks b':' version
      → Lacks b':' version'
      → Lacks b':' hash
      → Lacks b':' hash'
      → ((version ≢ version') ⊎ (model ≢ model')) ⊎ (hash ≢ hash')
      → (t : ℕ)
      → get_cached_completion r json version' model' hash' t
          (set_cached_completion r json version model hash payload vector_json now (some db))
        ≡ get_cached_completion r json version' model' hash' t (some db)
  unfolding set_cached_completion get_cached_completion set_commands
  get-set_other version' model' hash' lv lv' lh lh' differ t = ap (parsed r json) (
      law.untouched now get_default_cache_ttl _ vector_json _ (json.dumps payload) _ db
        (λ e. vector_key-ne-payload_key version version' model model' hash hash' (sym e))
        (λ e. other_entry version version' model model' hash hash' lv lv' lh lh' differ (sym e)) t)
