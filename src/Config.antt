-- ===== src/Config.antt =====
-- pkg/config/config.go: the configuration that `Load` makes of the environment. What is logged is
-- left out.
pub mod Loaded
mod Tests
use yapi.Common.{
  ℕ, suc, ◌+◌, ◌-◌, ◌*◌, ◌%◌, ◌^◌, Bool, ◌||◌, Option, none, some, List, [], ◌∷◌, if◌then◌else◌,
  is_nil, ltb, ◌==◌,
}
use yapi.Common.Int.{ℤ, pos, negsuc}
use yapi.Common.Text.{Text, text, text_eq, Unicode, to_lower, trim_space, is_blank, split}
use yapi.Common.Text.Decimal.{atoi}

-- A duration is an int64 of nanoseconds.
pub record Config : Type 0 where
  pub gateway_port : Text
  pub upstream_base_url : Text
  pub database_dsn : Text
  pub redis_addr : Text
  pub redis_channel : Text
  pub redis_maint_mode : Text
  pub admin_username : Text
  pub admin_password : Text
  pub admin_token_secret : Text
  pub admin_token_ttl : ℤ
  pub admin_allowed_origins : List Text

-- The environment, `os.LookupEnv`, and `time.ParseDuration` (`none` is an error).
pub record Environment : Type 0 where
  pub lookup_env : Text → Option Text
  pub parse_duration : Text → Option ℤ

abbrev pub default_gateway_port : Text
default_gateway_port = text "8080"

abbrev pub default_redis_addr : Text
default_redis_addr = text "localhost:6379"

abbrev pub default_redis_channel : Text
default_redis_channel = text "rules:sync"

abbrev pub redis_maint_mode_disabled : Text
redis_maint_mode_disabled = text "disabled"

abbrev pub redis_maint_mode_auto : Text
redis_maint_mode_auto = text "auto"

abbrev pub redis_maint_mode_enabled : Text
redis_maint_mode_enabled = text "enabled"

-- An int64 from its residue modulo 2^64.
abbrev pub from_residue : ℕ → ℤ
from_residue m = if ltb m (2 ^ 63) then pos m else negsuc (2 ^ 64 - 1 - m)

-- `time.Duration(seconds) * time.Second`, which wraps around.
unfoldable pub of_seconds : ℤ → ℤ
of_seconds (pos n) = from_residue (n * 1000000000 % 2 ^ 64)
of_seconds (negsuc n) = from_residue ((2 ^ 64 - suc n * 1000000000 % 2 ^ 64) % 2 ^ 64)

-- `30 * time.Minute`
abbrev pub default_ttl : ℤ
default_ttl = pos 1800000000000

-- The loop of `parseCSV` over the parts.
unfoldable pub trimmed_parts : List Text → List Text
trimmed_parts [] = []
trimmed_parts (part ∷ parts) =
    let rest = trimmed_parts parts in if is_blank part then rest else trim_space part ∷ rest

unfoldable pub parse_csv : Text → List Text
unfolding trimmed_parts
parse_csv raw = trimmed_parts (split raw b',')

unfoldable pub normalize_maint_mode : Unicode → Text → Text
normalize_maint_mode u mode =
    let normalized = to_lower u (trim_space mode) in
    if is_nil normalized || text_eq normalized redis_maint_mode_disabled
    then redis_maint_mode_disabled
    else if text_eq normalized redis_maint_mode_auto || text_eq normalized redis_maint_mode_enabled
    then normalized
    else redis_maint_mode_disabled

module _ (env : Environment) where
  -- `os.Getenv`
  abbrev pub getenv : Text → Text
  getenv key = elim (env.lookup_env key) [ none ↦ [] | some value ↦ value ]

  unfoldable pub lookup_env_or_default : Text → Text → Text
  lookup_env_or_default key fallback = elim (env.lookup_env key) [
    | none ↦ fallback
    | some value ↦ if is_nil value then fallback else value
  ]

  abbrev seconds_or_zero : Option ℤ → ℤ
  seconds_or_zero none = pos 0
  seconds_or_zero (some seconds) = of_seconds seconds

  abbrev pub parsed_ttl : Text → ℤ
  parsed_ttl ttl = elim (env.parse_duration ttl) [
    | some parsed ↦ parsed
    | none ↦ seconds_or_zero (atoi ttl)
  ]

  abbrev pub or_default : ℤ → ℤ
  or_default (pos n) = if n == 0 then default_ttl else pos n
  or_default (negsuc n) = negsuc n

  -- The two tests on ADMIN_TOKEN_TTL.
  unfoldable pub token_ttl : ℤ
  unfolding of_seconds
  token_ttl =
      let ttl = getenv (text "ADMIN_TOKEN_TTL") in
      or_default (if is_nil ttl then pos 0 else parsed_ttl ttl)

  unfoldable pub load : Unicode → Config
  unfolding parse_csv normalize_maint_mode lookup_env_or_default token_ttl
  load u =
      let allowed = getenv (text "ADMIN_ALLOWED_ORIGINS") in
      record {
        gateway_port = lookup_env_or_default (text "GATEWAY_PORT") default_gateway_port;
        upstream_base_url = getenv (text "UPSTREAM_BASE_URL");
        database_dsn = getenv (text "DATABASE_DSN");
        redis_addr = lookup_env_or_default (text "REDIS_ADDR") default_redis_addr;
        redis_channel = lookup_env_or_default (text "REDIS_CHANNEL") default_redis_channel;
        redis_maint_mode = normalize_maint_mode u (
            lookup_env_or_default (text "REDIS_MAINT_NOTIFICATIONS_MODE")
              redis_maint_mode_disabled);
        admin_username = getenv (text "ADMIN_USERNAME");
        admin_password = getenv (text "ADMIN_PASSWORD");
        admin_token_secret = getenv (text "ADMIN_TOKEN_SECRET");
        admin_token_ttl = token_ttl;
        admin_allowed_origins = if is_nil allowed then [] else parse_csv allowed;
      }
