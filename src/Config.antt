-- ===== src/Config.antt =====
-- config/mod.rs: the settings, their defaults, and what is loaded from the environment.
pub mod Origins
use Prim.Native.Nat.{◌*◌, ◌/◌, ◌%◌}
use rsmc_engine.Base.{
  ℕ, zero, suc, ◌+◌, ◌-◌, Bool, true, false, not, ◌&&◌, Option, none, some, List, [], ◌∷◌, ◌++◌,
  map, Text, text, is_some, leb, ltb, ◌==◌, if◌then◌else◌, select, byte_len, trim,
}
use rsmc_engine.Base.Int.{ℤ, pos, negsuc}

pub record ServerConfig : Type 0 where
  pub host : Text
  pub port : ℕ
  pub cors_origins : List Text
  pub max_body_bytes : ℕ

pub record DatabaseConfig : Type 0 where
  pub url : Text
  pub max_connections : ℕ
  pub min_connections : ℕ
  pub acquire_timeout_secs : ℕ
  pub auto_migrate : Bool

pub record AuthConfig : Type 0 where
  pub jwt_secret : Text
  pub access_token_ttl_secs : ℤ
  pub refresh_token_ttl_secs : ℤ

pub record StorageConfig : Type 0 where
  pub upload_dir : Text
  pub max_file_bytes : ℕ

pub record RedisConfig : Type 0 where
  pub url : Option Text

pub record LoggingConfig : Type 0 where
  pub format : Text
  pub level : Text

pub record Settings : Type 0 where
  pub server : ServerConfig
  pub database : DatabaseConfig
  pub auth : AuthConfig
  pub storage : StorageConfig
  pub redis : RedisConfig
  pub logging : LoggingConfig

abbrev default_body_limit : ℕ
default_body_limit = 25 * 1024 * 1024

abbrev pub default_server : ServerConfig
default_server = record {
  host = text "0.0.0.0";
  port = 8080;
  cors_origins = text "*" ∷ [];
  max_body_bytes = default_body_limit;
}

abbrev pub default_database : DatabaseConfig
default_database = record {
  url = [];
  max_connections = 20;
  min_connections = 2;
  acquire_timeout_secs = 10;
  auto_migrate = true;
}

abbrev pub default_auth : AuthConfig
default_auth = record {
  jwt_secret = [];
  access_token_ttl_secs = pos 3600;
  refresh_token_ttl_secs = pos (30 * 24 * 3600);
}

abbrev pub default_storage : StorageConfig
default_storage = record { upload_dir = text "./uploads"; max_file_bytes = default_body_limit }

abbrev pub default_redis : RedisConfig
default_redis = record { url = none }

abbrev pub default_logging : LoggingConfig
default_logging = record { format = text "pretty"; level = text "info,rsmc_engine=debug,sqlx=warn" }

abbrev pub default_settings : Settings
default_settings = record {
  server = default_server;
  database = default_database;
  auth = default_auth;
  storage = default_storage;
  redis = default_redis;
  logging = default_logging;
}

-- `RedisConfig::enabled`
abbrev pub enabled : RedisConfig → Bool
enabled r = is_some r.url

-- What `set_override` sets.
pub data Override : Type 0 where
  database_url jwt_secret redis_url : Text → Override
  server_port : ℤ → Override
  cors_origins : List Text → Override

pub data LoadError : Type 0 where
  not_built short_secret no_database : LoadError

pub data Loaded (A : Type 0) : Type 0 where
  loaded : A → Loaded A
  refused : LoadError → Loaded A

-- `str::parse::<i64>`: a sign, and digits that stay in range.
unfoldable pub digits : (total : ℕ) → Text → Option ℕ
digits total [] = some total
digits total (c ∷ s) =
    let rest = digits (total * 10 + (c - b'0')) s in if leb b'0' c && leb c b'9' then rest else none

abbrev pub magnitude : Text → Option ℕ
unfolding digits
magnitude [] = none
magnitude (c ∷ s) = digits 0 (c ∷ s)

abbrev positive : Option ℕ → Option ℤ
positive none = none
positive (some n) = if ltb n 0x8000_0000_0000_0000 then some (pos n) else none

abbrev negative : Option ℕ → Option ℤ
negative none = none
negative (some zero) = some (pos 0)
negative (some (suc n)) = if ltb n 0x8000_0000_0000_0000 then some (negsuc n) else none

unfoldable pub parse_i64 : Text → Option ℤ
parse_i64 [] = none
parse_i64 (c ∷ s) =
    if c == b'-'
    then negative (magnitude s)
    else if c == b'+'
    then positive (magnitude s)
    else positive (magnitude (c ∷ s))

abbrev pub push : Text → List Text → List Text
push piece [] = piece ∷ []
push piece (p ∷ ps) = piece ∷ p ∷ ps

abbrev pub prepend : ℕ → List Text → List Text
prepend c [] = (c ∷ []) ∷ []
prepend c (p ∷ ps) = (c ∷ p) ∷ ps

-- `raw.split(',')`
unfoldable pub split_commas : Text → List Text
split_commas [] = [] ∷ []
split_commas (c ∷ s) = let rest = split_commas s in if c == b',' then [] ∷ rest else prepend c rest

abbrev pub is_nonempty : Text → Bool
is_nonempty [] = false
is_nonempty (c ∷ s) = true

-- The origins of a comma-separated list.
unfoldable pub origins : Text → List Text
unfolding split_commas
origins raw = select is_nonempty (map trim (split_commas raw))

abbrev one {ℓ} : {A : Type ℓ} → (A → Override) → Option A → List Override
one f none = []
one f (some a) = f a ∷ []

abbrev port_override : Option Text → List Override
port_override none = []
port_override (some v) = one server_port (parse_i64 v)

abbrev or_else : Option Text → Option Text → Option Text
or_else none o = o
or_else (some v) o = some v

abbrev origins_override : List Text → List Override
origins_override [] = []
origins_override (o ∷ os) = cors_origins (o ∷ os) ∷ []

abbrev cors_override : Option Text → List Override
cors_override none = []
cors_override (some raw) = origins_override (origins raw)

-- The overrides of the bare variables, in the order of the code.
unfoldable pub overrides : (vars : Text → Option Text) → List Override
unfolding parse_i64 origins
overrides vars =
    one database_url (vars (text "DATABASE_URL"))
    ++ one jwt_secret (vars (text "JWT_SECRET"))
    ++ one redis_url (vars (text "REDIS_URL"))
    ++ port_override (vars (text "PORT"))
    ++ cors_override
        (or_else (vars (text "CORS_ORIGINS")) (vars (text "APP__SERVER__CORS_ORIGINS")))

-- `Settings::validate`
unfoldable pub validate : Settings → Loaded (Unit {0})
validate s =
    if ltb (byte_len s.auth.jwt_secret) 16
    then refused short_secret
    else if is_nonempty s.database.url
    then loaded tt
    else refused no_database

abbrev checked : Settings → Loaded (Unit {0}) → Loaded Settings
checked s (loaded x) = loaded s
checked s (refused x) = refused x

abbrev pub validated : Option Settings → Loaded Settings
validated none = refused not_built
validated (some s) = checked s (validate s)

-- `Settings::load`, with the config crate's `build` and `try_deserialize` as `build`.
unfoldable pub load :
    (vars : Text → Option Text) → (build : List Override → Option Settings) → Loaded Settings
unfolding overrides validate
load vars build = validated (build (overrides vars))

-- A number in decimal, with as many digits as the fuel allows.
unfoldable pub decimal : (fuel : ℕ) → ℕ → Text
decimal zero n = []
decimal (suc fuel) n =
    let high = decimal fuel (n / 10) in (if ltb n 10 then [] else high) ++ (b'0' + n % 10) ∷ []

-- `Settings::bind_addr`; a port has at most five digits.
unfoldable pub bind_addr : Settings → Text
unfolding decimal
bind_addr s = s.server.host ++ text ":" ++ decimal 5 s.server.port
