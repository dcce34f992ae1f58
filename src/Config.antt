-- ===== src/Config.antt =====
-- internal/config/config.go: the configuration and its defaults. Durations are nanoseconds.
pub mod Defaults
pub mod Tests
use zx909_gw.Prelude.{ℕ, Bool, [], ◌∷◌, Option, none, some, if◌then◌else◌, ◌==◌}
use zx909_gw.Prelude.Int.{ℤ, pos, negsuc}
use zx909_gw.Bytes.{Bytes}
use zx909_gw.Server.Uplink.{is_empty}

pub record ServerConfig : Type 0 where
  pub listen : Bytes
  pub read_timeout : ℤ
  pub write_timeout : ℤ
  pub debug_api : Bytes

-- `qos` is a byte.
pub record ThingsBoardConfig : Type 0 where
  pub host : Bytes
  pub port : ℤ
  pub access_token : Bytes
  pub client_id : Bytes
  pub password : Bytes
  pub device_profile : Bytes
  pub qos : ℕ
  pub keep_alive : ℤ
  pub use_mock : Bool

pub record GeolocationConfig : Type 0 where
  pub enabled : Bool
  pub url : Bytes
  pub api_key : Bytes
  pub timeout : ℤ

pub record PaapeliConfig : Type 0 where
  pub enabled : Bool
  pub base_url : Bytes
  pub username : Bytes
  pub password : Bytes
  pub timeout : ℤ
  pub positive_ttl : ℤ
  pub negative_ttl : ℤ

pub record Config : Type 0 where
  pub server : ServerConfig
  pub things_board : ThingsBoardConfig
  pub geolocation : GeolocationConfig
  pub paapeli : PaapeliConfig
  pub level : Bytes

-- The default values.
abbrev pub default_listen : Bytes
default_listen = b':' ∷ b'8' ∷ b'0' ∷ b'0' ∷ b'2' ∷ []

abbrev pub default_profile : Bytes
default_profile = b'p' ∷ b'e' ∷ b't' ∷ b'-' ∷ b't' ∷ b'r' ∷ b'a' ∷ b'c' ∷ b'k' ∷ b'e' ∷ b'r' ∷ []

abbrev pub default_client_id : Bytes
default_client_id = b'z' ∷ b'x' ∷ b'9' ∷ b'0' ∷ b'9' ∷ b'-' ∷ b'g' ∷ b'w' ∷ []

abbrev pub default_level : Bytes
default_level = b'i' ∷ b'n' ∷ b'f' ∷ b'o' ∷ []

unfoldable pub or_string : Bytes → Bytes → Bytes
or_string default s = if is_empty s then default else s

unfoldable pub or_int : ℕ → ℤ → ℤ
or_int default (pos n) = if n == 0 then pos default else pos n
or_int default (negsuc n) = negsuc n

unfoldable pub or_byte : ℕ → ℕ → ℕ
or_byte default n = if n == 0 then default else n

unfoldable pub server_defaults : ServerConfig → ServerConfig
unfolding or_string or_int
server_defaults c = record c {
  listen = or_string default_listen c.listen;
  read_timeout = or_int 300000000000 c.read_timeout;
  write_timeout = or_int 10000000000 c.write_timeout;
}

unfoldable pub things_board_defaults : ThingsBoardConfig → ThingsBoardConfig
unfolding or_string or_int or_byte
things_board_defaults c = record c {
  port = or_int 1883 c.port;
  device_profile = or_string default_profile c.device_profile;
  qos = or_byte 1 c.qos;
  keep_alive = or_int 30000000000 c.keep_alive;
  client_id = or_string default_client_id c.client_id;
}

unfoldable pub geolocation_defaults : GeolocationConfig → GeolocationConfig
unfolding or_int
geolocation_defaults c = record c { timeout = or_int 3000000000 c.timeout }

unfoldable pub paapeli_defaults : PaapeliConfig → PaapeliConfig
unfolding or_int
paapeli_defaults c = record c {
  timeout = or_int 3000000000 c.timeout;
  positive_ttl = or_int 1800000000000 c.positive_ttl;
  negative_ttl = or_int 60000000000 c.negative_ttl;
}

unfoldable pub with_defaults : Config → Config
unfolding server_defaults things_board_defaults geolocation_defaults paapeli_defaults or_string
with_defaults c = record {
  server = server_defaults c.server;
  things_board = things_board_defaults c.things_board;
  geolocation = geolocation_defaults c.geolocation;
  paapeli = paapeli_defaults c.paapeli;
  level = or_string default_level c.level;
}

pub data Loaded : Type 0 where
  unreadable unparsable : Loaded
  loaded : Config → Loaded

-- `Load`, given what reading the file gives and `yaml.Unmarshal`.
unfoldable pub load : (Bytes → Option Config) → Option Bytes → Loaded
unfolding with_defaults
load unmarshal none = unreadable
load unmarshal (some text) = elim (unmarshal text) [
  | none ↦ unparsable
  | some c ↦ loaded (with_defaults c)
]
