-- ===== src/Auth.antt =====
-- app/core/auth.py: `authenticate_api_key`, and the key that the completions route reads from the
-- headers. `sha256` is `hashlib.sha256(...).hexdigest()` of the UTF-8 encoding.
pub mod Outcomes
use llmgov.Base.{
  ℕ, Bool, true, false, Option, none, some, List, [], ◌∷◌, ◌++◌, Text, codes, is_empty, ◌==◌, ◌&&◌,
  if◌then◌else◌,
}
use llmgov.Redis.{Redis, Client}

-- How authentication ends: with the application, `InvalidAPIKeyError` or
-- `AuthServiceUnavailableError`.
pub data Identity : Type 0 where
  app : Text → Identity
  invalid_key : Identity
  auth_unavailable : Identity

unfoldable pub auth_key : (Text → Text) → Text → Text
auth_key sha256 raw_key = codes "llmgov:auth:" ++ sha256 raw_key

-- `if not app_id`, after the call of `hget`: a missing field and an empty one are both invalid.
unfoldable pub identify : Option (Option Text) → Identity
identify none = auth_unavailable
identify (some none) = invalid_key
identify (some (some app_id)) = if is_empty app_id then invalid_key else app app_id

module _ (r : Redis) (sha256 : Text → Text) where
  look_up : Text → ℕ → Client r → Identity
  unfolding identify auth_key
  look_up raw_key now none = auth_unavailable
  look_up raw_key now (some db) =
      identify (r.hget now (auth_key sha256 raw_key) (codes "app_id") db)

  unfoldable pub authenticate_api_key : Text → ℕ → Client r → Identity
  unfolding look_up
  authenticate_api_key raw_key now client =
      if is_empty raw_key then invalid_key else look_up raw_key now client

-- `text.startswith(prefix)` and `text[len(prefix):]` together.
unfoldable pub strip_prefix : Text → Text → Option Text
strip_prefix [] text = some text
strip_prefix (c ∷ prefix) [] = none
strip_prefix (c ∷ prefix) (d ∷ text) = if c == d then strip_prefix prefix text else none

pub record Headers : Type 0 where
  pub authorization : Option Text
  pub x_api_key : Option Text
  pub x_request_id : Option Text

abbrev pub or_empty : Option Text → Text
or_empty none = []
or_empty (some t) = t

bearer : Option Text → Option Text
bearer none = none
bearer (some header) = strip_prefix (codes "Bearer ") header

unfoldable pub raw_key_of : Headers → Text
unfolding bearer strip_prefix
raw_key_of h = elim (bearer h.authorization) [ none ↦ or_empty h.x_api_key | some key ↦ key ]
