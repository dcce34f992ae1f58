-- ===== src/Gateway.antt =====
-- cmd/gateway/main.go: how the gateway is put together from a configuration, with the constructors
-- it calls: registry.New (internal/registry/paapeli.go) and NewGatewayClient
-- (internal/mqtt/client.go).
pub mod Confirmed
pub mod Authority
pub mod Process
pub mod Tests
use zx909_gw.Prelude.{ℕ, Bool, true, false, not, ◌||◌, [], ◌∷◌, Option, none, some, if◌then◌else◌}
use zx909_gw.Prelude.Int.{ℤ, pos, ltb_ℤ}
use zx909_gw.Bytes.{Bytes}
use zx909_gw.Platform.{Platform}
use zx909_gw.Server.State.{Server, World, same_string}
use zx909_gw.Server.Uplink.{is_empty}
use zx909_gw.Server.WellFormed.Reach.{new_server}
use zx909_gw.Registry.{Service, is_registered}
use zx909_gw.Registry.{Client as RegistryClient}
use zx909_gw.Geolocation.{new_client, is_enabled}
use zx909_gw.Geolocation.{Client as LocationClient}
use zx909_gw.Mqtt.{Topic, gateway_rpc, GatewayClient}
use zx909_gw.Config.{
  Config, ThingsBoardConfig, PaapeliConfig, Loaded, unreadable, unparsable, loaded,
}

-- The two implementations of `Registry`; the number is the timeout of the HTTP client.
pub data Registry : Type 0 where
  allow_all : Registry
  paapeli : ℤ → RegistryClient → Registry

unfoldable pub new_registry : PaapeliConfig → Registry
new_registry cfg =
    if not cfg.enabled
    then allow_all
    else if is_empty cfg.base_url || is_empty cfg.username
    then allow_all
    else paapeli (if ltb_ℤ (pos 0) cfg.timeout then cfg.timeout else pos 3000000000) (record {
      positive_ttl = cfg.positive_ttl;
      negative_ttl = cfg.negative_ttl;
      token = [];
      cache = [];
      requests = [];
    })

unfoldable pub registry_enabled : Registry → Bool
registry_enabled allow_all = false
registry_enabled (paapeli timeout c) = true

-- The answer of `IsRegistered`.
unfoldable pub registry_answer : Service → Registry → Bytes → Bool
unfolding is_registered
registry_answer sv allow_all imei = true
registry_answer sv (paapeli timeout c) imei = (is_registered sv imei c).0

-- What `NewGatewayClient` sets in the options of Paho; the broker is `tcp://host:port`.
pub record MqttOptions : Type 0 where
  pub broker : Bytes × ℤ
  pub client_id : Bytes
  pub username : Bytes
  pub password : Bytes
  pub keep_alive : ℤ

unfoldable pub mqtt_options : ThingsBoardConfig → MqttOptions
mqtt_options cfg = record {
  broker = (cfg.host, cfg.port);
  client_id = cfg.client_id;
  username = cfg.access_token;
  password = cfg.password;
  keep_alive = cfg.keep_alive;
}

pub data LogLevel : Type 0 where
  debug info warn error : LogLevel

abbrev pub debug_name : Bytes
debug_name = b'd' ∷ b'e' ∷ b'b' ∷ b'u' ∷ b'g' ∷ []

abbrev pub warn_name : Bytes
warn_name = b'w' ∷ b'a' ∷ b'r' ∷ b'n' ∷ []

abbrev pub error_name : Bytes
error_name = b'e' ∷ b'r' ∷ b'r' ∷ b'o' ∷ b'r' ∷ []

unfoldable pub setup_logging : Bytes → LogLevel
unfolding same_string
setup_logging level =
    if same_string level debug_name
    then debug
    else if same_string level warn_name
    then warn
    else if same_string level error_name
    then error
    else info

module _ (P : Platform) where
  unfoldable pub new_gateway_client : ThingsBoardConfig → GatewayClient P
  new_gateway_client cfg = record {
    profile = cfg.device_profile;
    qos = cfg.qos;
    has_rpc = false;
    published = [];
  }

  unfoldable pub set_rpc_executor : GatewayClient P → GatewayClient P
  set_rpc_executor g = record g { has_rpc = true }

  -- `Subscribe`, on every connection to the broker.
  unfoldable pub subscription : GatewayClient P → Topic × ℕ
  subscription g = (gateway_rpc, g.qos)

  pub data Uplink : Type 0 where
    mock : Uplink
    mqtt : MqttOptions → GatewayClient P → Uplink

  pub record Gateway : Type 0 where
    pub log_level : LogLevel
    pub location : LocationClient
    pub registry : Registry
    pub uplink : Uplink
    pub server : Server P
    pub has_debug_api : Bool

  unfoldable pub assemble : Config → Gateway
  unfolding setup_logging new_registry registry_enabled mqtt_options new_gateway_client
      set_rpc_executor new_client is_enabled
  assemble cfg =
      let registry = new_registry cfg.paapeli in
      let location = new_client cfg.geolocation in
      record {
        log_level = setup_logging cfg.level;
        location = location;
        registry = registry;
        uplink =
            if cfg.things_board.use_mock
            then mock
            else mqtt (mqtt_options cfg.things_board)
                (set_rpc_executor (new_gateway_client cfg.things_board));
        server = new_server P (registry_enabled registry) (is_enabled location);
        has_debug_api = not (is_empty cfg.server.debug_api);
      }

  -- The program exits if the configuration is not loaded.
  unfoldable pub gateway_main : Loaded → Option Gateway
  unfolding assemble
  gateway_main unreadable = none
  gateway_main unparsable = none
  gateway_main (loaded cfg) = some (assemble cfg)

  -- A world whose registry is the one given, in the state that it is in.
  abbrev pub registry_world : Service → Registry → World P → World P
  registry_world sv r w = record w { is_registered = registry_answer sv r }
