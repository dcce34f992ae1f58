-- ===== src/Gateway/Tests.antt =====
-- A concrete run of the gateway.
use zx909_gw.Prelude.{◌≡◌, refl, [], ◌∷◌, ◌++◌, List}
use zx909_gw.Server.Effects.{All}
use zx909_gw.Server.Trace.{IsClear}
use zx909_gw.Registry.{Client as RegistryClient}
use zx909_gw.Prelude.Int.{pos}
use zx909_gw.Samples.{
  sample_platform, sample_world, sample_imei, sample_server, sample_conn, gps_frame,
}
use zx909_gw.Server.State.{Output}
use zx909_gw.Server.Handle.{handle_frame}
use zx909_gw.Registry.Tests.{sample_service, stale_client}
use zx909_gw.Registry.Calls.Tests.{IsSample, strict_service, strict_service-IsSound}
use zx909_gw.Mqtt.{gateway_client, perform_all}
use zx909_gw.Mqtt.Uplink.{Publishes}
use zx909_gw.Mqtt.Tests.{sample_broker, sample_client}
use zx909_gw.Config.Tests.{sample_paapeli, sample_config}
use zx909_gw.Gateway.{paapeli, registry_world, new_registry, registry_enabled, assemble}
use zx909_gw.Gateway.Authority.{client_world, starts, asks, handles, assemble-IsClear}
use zx909_gw.Gateway.Confirmed.{IsVouched, handle_frame-IsVouched}

handle_frame-IsVouched_example :
    (os : List (Output sample_platform)) × ((handle_frame sample_platform
        (registry_world sample_platform sample_service (paapeli (pos 5) stale_client) sample_world)
        gps_frame
        sample_conn
        sample_server).1.log
      ≡ [] ++ os)
    × Publishes sample_platform sample_broker
        (IsVouched sample_platform sample_broker sample_service stale_client sample_imei)
        sample_client
        (perform_all sample_platform
          (gateway_client sample_platform sample_broker)
          os
          sample_client)
unfolding new_registry registry_enabled
handle_frame-IsVouched_example =
    handle_frame-IsVouched sample_platform sample_broker sample_service sample_paapeli (pos 5)
      stale_client sample_world sample_conn sample_server gps_frame sample_client refl refl refl
      refl

abbrev fresh_client : RegistryClient
fresh_client = record stale_client { positive_ttl = pos 5; token = [] }

assembled :
    (assemble sample_platform sample_config).registry ≡ paapeli (pos 3000000000) fresh_client
unfolding assemble new_registry
assembled = refl

-- The client is asked for the IMEI, and then a position is handled on its connection.
assemble-IsClear_example :
    All
      (IsClear sample_platform IsSample)
      (handle_frame sample_platform
        (client_world sample_platform IsSample fresh_client
          (pos 3000000000)
          ((strict_service, sample_imei) ∷ [])
          strict_service
          sample_world)
        gps_frame
        sample_conn
        (assemble sample_platform sample_config).server).1.log
assemble-IsClear_example =
    assemble-IsClear sample_platform IsSample sample_config (pos 3000000000) fresh_client assembled
      (handles strict_service sample_world gps_frame sample_conn strict_service-IsSound
        (asks strict_service sample_imei strict_service-IsSound starts))
