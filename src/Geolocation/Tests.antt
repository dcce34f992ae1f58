-- ===== src/Geolocation/Tests.antt =====
-- Concrete runs of the geolocation client.
use zx909_gw.Prelude.{◌≡◌, refl, ◌⊎◌, true, [], ◌∷◌, some}
use zx909_gw.Prelude.Int.{pos}
use zx909_gw.Samples.{sample_platform, sample_world, sample_imei, sample_server, sample_time}
use zx909_gw.Protocol.WifiLbs.{WifiLbs}
use zx909_gw.Server.State.{Location, resolve_and_publish_lbs, lbs_wifi}
use zx909_gw.Server.Uplink.{publish, run_task}
use zx909_gw.Geolocation.{Client, new_client, Service, located, client_locate, located_world}
use zx909_gw.Geolocation.Located.{IsLocated, run_task-IsLocated}

abbrev sample_client : Client
sample_client =
    new_client (record { enabled = true; url = b'h' ∷ []; api_key = b'k' ∷ []; timeout = pos 0 })

abbrev sample_location : Location sample_platform
sample_location = record { latitude = (35, 1); longitude = (51, 1); accuracy = (0, 1) }

-- The service answers with one position.
abbrev sample_service : Service sample_platform
sample_service = record {
  marshal = λ r. some [];
  is_url = λ url. true;
  do_request = λ url timeout key body. some (200, some (b'x' ∷ []));
  unmarshal = λ body. some sample_location;
}

abbrev sample_wifi_lbs : WifiLbs sample_platform
sample_wifi_lbs = record {
  time = sample_time;
  wifi = [];
  cells = record { mcc = 432; mnc = 11; lac = 1; cell_id = 2; signal = 90 } ∷ [];
  raw = [];
}

sample_located :
    client_locate sample_platform sample_service sample_client [] sample_wifi_lbs.cells
    ≡ located sample_location
unfolding client_locate new_client
sample_located = refl

run_task-IsLocated_example :
    (let w = located_world sample_platform sample_service sample_client sample_world in
      let t =
        run_task sample_platform w
          (resolve_and_publish_lbs sample_imei sample_wifi_lbs)
          sample_server in
      (t ≡ sample_server)
      ⊎ ((x : Location sample_platform) × IsLocated sample_platform sample_service sample_client
            sample_wifi_lbs.wifi sample_wifi_lbs.cells x
          × (t
              ≡ publish sample_platform w sample_imei sample_wifi_lbs.time
                  (lbs_wifi x.latitude x.longitude)
                  sample_server)))
run_task-IsLocated_example =
    run_task-IsLocated sample_platform sample_service sample_client sample_world sample_imei
      sample_wifi_lbs sample_server
