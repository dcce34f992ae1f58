-- ===== src/Mqtt/Tests.antt =====
-- Concrete runs of the uplink.
use zx909_gw.Prelude.{refl, true, [], ◌∷◌, some}
use zx909_gw.Prelude.Int.{pos}
use zx909_gw.Samples.{sample_platform, sample_world, sample_imei, sample_server}
use zx909_gw.Command.{set_location_interval}
use zx909_gw.Command.Tests.{sample_json}
use zx909_gw.Mqtt.{RpcRequest, Broker, GatewayClient, on_rpc}
use zx909_gw.Mqtt.Rpc.{handler_executor, IsAnswered, on_rpc-IsAnswered}

-- Everything is marshalled and accepted.
abbrev pub sample_broker : Broker sample_platform
sample_broker = record { accepts = λ m. true; marshals = λ p. true; unix_milli = λ t. pos t.second }

abbrev pub sample_client : GatewayClient sample_platform
sample_client = record { profile = []; qos = 1; has_rpc = true; published = [] }

abbrev sample_request : RpcRequest
sample_request = record {
  device = sample_imei;
  id = pos 5;
  method = set_location_interval;
  params = 60 ∷ [];
}

on_rpc-IsAnswered_example :
    (let E = handler_executor sample_platform sample_json (λ e. []) sample_world in
      let r =
        on_rpc sample_platform sample_broker E (some sample_request) sample_client sample_server in
      IsAnswered sample_platform sample_broker sample_json
        (λ e. [])
        sample_world
        sample_request
        sample_client
        r.0
        sample_server
        r.1)
on_rpc-IsAnswered_example =
    on_rpc-IsAnswered sample_platform sample_broker sample_json (λ e. []) sample_world
      sample_request sample_client sample_server refl refl
