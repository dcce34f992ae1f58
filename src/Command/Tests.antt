-- ===== src/Command/Tests.antt =====
-- Concrete runs of the command handler.
use zx909_gw.Prelude.{◌≡◌, ◌≢◌, ◌⊎◌, true, [], ◌∷◌, List, Option, none, some}
use zx909_gw.Prelude.Int.{ℤ, pos}
use zx909_gw.Bytes.{Bytes}
use zx909_gw.Samples.{sample_platform, sample_world, sample_imei, sample_server}
use zx909_gw.Command.{
  Json, SessionLookup, RpcError, send_failed, set_location_interval, execute_rpc,
}
use zx909_gw.Command.Packets.{Order, IsAccepted, encoded}
use zx909_gw.Command.Meaning.{Means}
use zx909_gw.Command.Orders.{execute_rpc-encoded}
use zx909_gw.Command.Delivery.{server_lookup, IsWritten, execute_rpc-IsWritten}

-- Parameters are a single byte, the interval.
abbrev one_number : Bytes → Option ℤ
one_number (n ∷ []) = some (pos n)
one_number _ = none

abbrev pub sample_json : Json
sample_json = record {
  Float = ℤ;
  seconds = one_number;
  minutes = one_number;
  truncate = λ x. x;
  int_of_number = one_number;
}

-- The packets sent, the last first.
abbrev sample_lookup : SessionLookup
sample_lookup = record {
  State = List (Bytes × Bytes);
  send = λ imei packet s. (true, (imei, packet) ∷ s);
}

execute_rpc-encoded_example :
    (((o : Order) → Means sample_json set_location_interval (60 ∷ []) o → ¬ IsAccepted o)
      × ((e : RpcError) × (e ≢ send_failed)
          × (execute_rpc sample_json sample_lookup sample_imei set_location_interval (60 ∷ []) []
              ≡ (some e, []))))
    ⊎ ((o : Order) × Means sample_json set_location_interval (60 ∷ []) o
        × IsAccepted o
        × (execute_rpc sample_json sample_lookup sample_imei set_location_interval (60 ∷ []) []
            ≡ (none, (sample_imei, encoded o) ∷ [])))
execute_rpc-encoded_example =
    execute_rpc-encoded sample_json sample_lookup sample_imei set_location_interval (60 ∷ []) []

execute_rpc-IsWritten_example :
    (let r =
        execute_rpc sample_json
          (server_lookup sample_platform sample_world)
          sample_imei
          set_location_interval
          (60 ∷ [])
          sample_server in
      ((e : RpcError) × (r ≡ (some e, sample_server)))
      ⊎ IsWritten sample_platform sample_imei sample_server r.1)
execute_rpc-IsWritten_example =
    execute_rpc-IsWritten sample_platform sample_json sample_world sample_imei set_location_interval
      (60 ∷ []) sample_server
