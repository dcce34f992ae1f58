-- ===== src/Debug/Tests.antt =====
-- Concrete runs of the debug REST interface.
use mathlib.Core.List.Permᴰ
use zx909_gw.Prelude.{◌≡◌, refl, inr, [], ◌∷◌, some, arith}
use zx909_gw.Prelude.Int.{pos}
use zx909_gw.Samples.{sample_platform, sample_world, sample_imei, sample_server, sample_session}
use zx909_gw.Server.State.{write, find_session, deref, emit}
use zx909_gw.Server.Tests.{sample_server-IsWellFormed}
use zx909_gw.Command.{reboot, out_of_range}
use zx909_gw.Command.Packets.{encoded, uploads_every}
use zx909_gw.Command.Tests.{sample_json}
use zx909_gw.Mqtt.{RpcRequest, on_rpc, respond, response}
use zx909_gw.Mqtt.Rpc.{handler_executor}
use zx909_gw.Mqtt.Tests.{sample_broker, sample_client}
use zx909_gw.Debug.{Marshal, not_found, failed, interval, list_sessions, serve, reboot_device}
use zx909_gw.Debug.Rpc.{rebooting, result_of, serve-on_rpc, interval_half_sent}
use zx909_gw.Debug.Listing.{Lists, list_sessions-Lists}

-- The parameters are a single byte, the interval.
abbrev sample_marshal : Marshal
sample_marshal = record { seconds = λ n. n ∷ []; minutes = λ n. n ∷ [] }

abbrev sample_reboot : RpcRequest
sample_reboot = record { device = sample_imei; id = pos 5; method = reboot; params = 1 ∷ 2 ∷ [] }

serve-on_rpc_example :
    (let E = handler_executor sample_platform sample_json (λ e. []) sample_world in
      let r =
        serve sample_platform sample_json sample_marshal sample_world []
          (reboot_device sample_imei)
          sample_server in
      on_rpc sample_platform sample_broker E (some sample_reboot) sample_client sample_server ≡ (
        respond sample_platform sample_broker E
            (response sample_imei
              (pos 5)
              (result_of sample_platform sample_json sample_world (λ e. []) r.0.body))
            sample_client,
        r.1,
      ))
serve-on_rpc_example =
    serve-on_rpc sample_platform sample_json sample_world sample_marshal sample_broker (λ e. [])
      rebooting sample_reboot [] sample_client sample_server refl refl refl

interval_half_sent_example :
    serve sample_platform sample_json sample_marshal sample_world []
      (interval sample_imei
        (some (record { location_seconds = some 60; status_minutes = some 90 })))
      sample_server
    ≡ (
      record { status = not_found; body = failed out_of_range },
      emit sample_platform (write 7 (encoded (uploads_every 60))) sample_server,
    )
unfolding find_session deref
interval_half_sent_example =
    interval_half_sent sample_platform sample_json sample_world sample_marshal [] sample_imei 60 90
      0 sample_session sample_server refl refl (omega arith) (omega arith) (inr (omega arith)) refl
      refl refl

list_sessions-Lists_example :
    Lists sample_platform sample_server
      (list_sessions sample_platform sample_server.sessions sample_server)
list_sessions-Lists_example =
    list_sessions-Lists sample_platform sample_server.sessions sample_server
      sample_server-IsWellFormed (Permᴰ.refl sample_server.sessions)
