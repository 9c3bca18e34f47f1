-- ===== src/Config.antt =====
-- app/config/settings.py: the settings with their defaults, and the key that loading them exports to
-- the environment. Reading a setting from the environment or a `.env` file is pydantic's.
use llmgov.Base.{ℕ, [], Option, none, some, Text, codes, is_empty, text_eq, if◌then◌else◌}

pub record Settings : Type 0 where
  pub gateway_host : Text
  pub gateway_port : ℕ
  pub log_level : Text
  pub redis_url : Text
  pub clickhouse_url : Text
  pub clickhouse_password : Text
  pub gemini_api_key : Text
  pub openai_api_key : Text
  pub anthropic_api_key : Text
  pub default_model : Text

unfoldable pub default_settings : Settings
default_settings = record {
  gateway_host = codes "0.0.0.0";
  gateway_port = 8000;
  log_level = codes "info";
  redis_url = codes "redis://localhost:6379";
  clickhouse_url = codes "http://localhost:8123";
  clickhouse_password = codes "llmgov_dev";
  gemini_api_key = [];
  openai_api_key = [];
  anthropic_api_key = [];
  default_model = codes "gemini/gemini-2.5-flash";
}

-- `os.environ`
abbrev pub Environment : Type 0
Environment = Text → Option Text

unfoldable pub setdefault : Text → Text → Environment → Environment
unfolding text_eq
setdefault key value environment asked = elim (environment asked) [
  | some given ↦ some given
  | none ↦ if text_eq asked key then some value else none
]

-- What importing the module does to the environment.
unfoldable pub export_keys : Settings → Environment → Environment
unfolding setdefault
export_keys settings environment =
    if is_empty settings.gemini_api_key
    then environment
    else setdefault (codes "GEMINI_API_KEY") settings.gemini_api_key environment
