-- ===== src/Redis.antt =====
-- app/core/redis.py, and the commands that the gateway sends through the client. The server and
-- the library `redis.asyncio` are not part of the repository: `Redis` is the interface that the
-- modules using the client take as a parameter.
use llmgov.Base.{ℕ, Bool, true, false, List, Option, none, some, Text, if◌then◌else◌}

pub data Command : Type 0 where
  incr : Text → Command
  expire : Text → ℕ → Command
  setex : Text → ℕ → Text → Command
  set : Text → Text → Command

-- Each call is made at a time in seconds; `none` is a call that raises. `transaction` is a pipeline
-- with `transaction=True`, from its first command to `execute()`, and gives the integer replies.
pub record Redis : Type 1 where
  pub Db : Type 0
  pub transaction : ℕ → List Command → Db → Option (List ℕ) × Db
  pub get : ℕ → Text → Db → Option (Option Text)
  pub hget : ℕ → Text → Text → Db → Option (Option Text)
  pub ping : Db → Bool

-- The module-level `_redis_client`: `none` until the lifespan hook has run.
abbrev pub Client : Redis → Type 0
Client r = Option r.Db

module _ (r : Redis) where
  -- `redis_lifespan` up to its `yield`: a failing `ping` raises, after the `finally` block has
  -- closed the client.
  unfoldable pub start : r.Db → Bool × Client r
  start db = if r.ping db then (true, some db) else (false, none)

  -- `redis_lifespan` from its `yield` on: the `finally` block.
  unfoldable pub stop : Client r → Client r
  stop client = none
