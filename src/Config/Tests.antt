-- ===== src/Config/Tests.antt =====
-- Concrete runs of the configuration.
use zx909_gw.Prelude.{◌≡◌, ◌↔◌, refl, false, true, [], ◌∷◌, some}
use zx909_gw.Prelude.Int.{pos}
use zx909_gw.Config.{
  Config, PaapeliConfig, loaded, load, with_defaults, default_listen, default_level,
  default_profile, default_client_id,
}
use zx909_gw.Config.Defaults.{IsComplete, with_defaults-fixed}

abbrev pub sample_paapeli : PaapeliConfig
sample_paapeli = record {
  enabled = true;
  base_url = b'h' ∷ [];
  username = b'u' ∷ [];
  password = [];
  timeout = pos 0;
  positive_ttl = pos 5;
  negative_ttl = pos 0;
}

abbrev pub sample_config : Config
sample_config = record {
  server = record { listen = []; read_timeout = pos 7; write_timeout = pos 0; debug_api = [] };
  things_board = record {
    host = b'h' ∷ [];
    port = pos 0;
    access_token = [];
    client_id = [];
    password = [];
    device_profile = [];
    qos = 0;
    keep_alive = pos 0;
    use_mock = false;
  };
  geolocation = record { enabled = false; url = []; api_key = []; timeout = pos 0 };
  paapeli = sample_paapeli;
  level = [];
}

-- The QoS becomes 1, and what is set is kept.
sample_loaded :
    load (λ text. some sample_config) (some [])
    ≡ loaded (record {
      server = record {
        listen = default_listen;
        read_timeout = pos 7;
        write_timeout = pos 10000000000;
        debug_api = [];
      };
      things_board = record {
        host = b'h' ∷ [];
        port = pos 1883;
        access_token = [];
        client_id = default_client_id;
        password = [];
        device_profile = default_profile;
        qos = 1;
        keep_alive = pos 30000000000;
        use_mock = false;
      };
      geolocation = record { enabled = false; url = []; api_key = []; timeout = pos 3000000000 };
      paapeli = record {
        enabled = true;
        base_url = b'h' ∷ [];
        username = b'u' ∷ [];
        password = [];
        timeout = pos 3000000000;
        positive_ttl = pos 5;
        negative_ttl = pos 60000000000;
      };
      level = default_level;
    })
unfolding load
sample_loaded = refl

with_defaults-fixed_example :
    IsComplete (with_defaults sample_config)
    × (IsComplete sample_config ↔ (with_defaults sample_config ≡ sample_config))
with_defaults-fixed_example = with_defaults-fixed sample_config
