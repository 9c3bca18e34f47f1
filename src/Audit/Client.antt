-- ===== src/Audit/Client.antt =====
-- app/core/telemetry.py: `_get_client`, the client of ClickHouse that is made when it is first used.
-- The driver, `clickhouse_connect`, is not part of the repository, and `to_int` is Python's `int`.
use llmgov.Base.{
  Bool, true, false, Option, none, some, List, [], ◌∷◌, Text, codes, ◌==◌, if◌then◌else◌,
}
use llmgov.Regex.{replace, split_by}
use llmgov.Config.{Settings}

-- The arguments of `clickhouse_connect.get_client`.
pub record Address (P : Type 0) : Type 0 where
  pub host : Text
  pub port : P
  pub password : Text
  pub database : Text

-- `parts[0]` and `parts[-1]`; the parts of a split are at least one.
abbrev pub first_part : List Text → Text
first_part [] = []
first_part (part ∷ parts) = part

abbrev pub last_part : List Text → Text
last_part [] = []
last_part (part ∷ []) = part
last_part (part ∷ next ∷ parts) = last_part (next ∷ parts)

-- `":" in text`
abbrev pub has_colon : Text → Bool
has_colon [] = false
has_colon (c ∷ text) = let rest = has_colon text in if c == b':' then true else rest

unfoldable pub host_of : Text → Text
unfolding replace split_by
host_of url =
    first_part
      (split_by (codes ":") (replace (codes "https://") [] (replace (codes "http://") [] url)))

module _ {P : Type 0} (default_port : P) (to_int : Text → Option P) where
  -- `none` is the `ValueError` of `int`; the port is 8123 where the address names none.
  unfoldable pub port_of : Text → Option P
  unfolding split_by
  port_of url =
      if has_colon (last_part (split_by (codes "//") url))
      then to_int (last_part (split_by (codes ":") url))
      else some default_port

  unfoldable pub address_of : Settings → Option (Address P)
  unfolding host_of port_of
  address_of settings = elim (port_of settings.clickhouse_url) [
    | none ↦ none
    | some port ↦ some (record {
      host = host_of settings.clickhouse_url;
      port = port;
      password = settings.clickhouse_password;
      database = codes "default";
    })
  ]

  -- The client, or none where making it raises, and the module's variable `_ch_client` afterwards.
  unfoldable pub get_client :
      {C : Type 0} → (Address P → Option C) → Settings → Option C → Option C × Option C
  unfolding address_of
  get_client connect settings (some client) = (some client, some client)
  get_client connect settings none = elim (address_of settings) [
    | none ↦ (none, none)
    | some address ↦ elim (connect address) [
      | none ↦ (none, none)
      | some client ↦ (some client, some client)
    ]
  ]
