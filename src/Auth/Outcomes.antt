-- ===== src/Auth/Outcomes.antt =====
-- Who is let in, and what a failing Redis means.
use llmgov.Base.{
  ℕ, ◌≡◌, refl, ◌⊎◌, inl, inr, false, Option, none, some, Text, codes, is_empty, arith,
}
use llmgov.Redis.{Redis, Client}
use llmgov.Auth.{app, auth_unavailable, auth_key, identify, authenticate_api_key}

identified :
    (found : Option (Option Text)) (app_id : Text)
    → identify found ≡ app app_id
    → (found ≡ some (some app_id)) × (is_empty app_id ≡ false)
unfolding identify
identified found app_id h = ground arith

identify-unavailable :
    (found : Option (Option Text)) → identify found ≡ auth_unavailable → found ≡ none
unfolding identify
identify-unavailable found h = ground arith

module _ (r : Redis) (sha256 : Text → Text) where
  -- A request is authenticated as an application only if its key is not empty and Redis, initialized
  -- and answering, holds that application's name, not empty, under the digest of the key.
  pub authenticate-app :
      (raw_key : Text) (now : ℕ) (client : Client r) (app_id : Text)
      → authenticate_api_key r sha256 raw_key now client ≡ app app_id
      → (is_empty raw_key ≡ false)
        × (is_empty app_id ≡ false)
        × ((db : r.Db) × (client ≡ some db)
            × (r.hget now (auth_key sha256 raw_key) (codes "app_id") db ≡ some (some app_id)))
  unfolding authenticate_api_key
  authenticate-app raw_key now none app_id h = absurd (ground arith)
  authenticate-app raw_key now (some db) app_id h =
      (ground arith, ground arith, (db, refl, ground arith))

  -- The service is reported unavailable only for a key that is not empty, and exactly because the
  -- client is not initialized or the call of Redis raises.
  pub authenticate-unavailable :
      (raw_key : Text) (now : ℕ) (client : Client r)
      → authenticate_api_key r sha256 raw_key now client ≡ auth_unavailable
      → (is_empty raw_key ≡ false)
        × ((client ≡ none)
            ⊎ ((db : r.Db) × (client ≡ some db)
                × (r.hget now (auth_key sha256 raw_key) (codes "app_id") db ≡ none)))
  unfolding authenticate_api_key
  authenticate-unavailable raw_key now none h = (ground arith, inl refl)
  authenticate-unavailable raw_key now (some db) h = (ground arith, inr (db, refl, ground arith))
