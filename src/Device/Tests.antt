-- ===== src/Device/Tests.antt =====
-- Concrete runs of the simulator's packets.
use zx909_gw.Prelude.{ℕ, List, ◌≡◌, refl, [], ◌∷◌, ◌++◌, some, none, arith, length}
use zx909_gw.Bytes.{Bytes}
use zx909_gw.Samples.{
  sample_platform, sample_time, sample_imei, sample_world, sample_conn, sample_server,
}
use zx909_gw.Protocol.Frame.{Frame, frame, extract_frame}
use zx909_gw.Protocol.Parsed.{ok}
use zx909_gw.Protocol.Login.{parse_login}
use zx909_gw.Protocol.Gps.{Position, parse_gps}
use zx909_gw.Protocol.Gps.Fix.{IsFixOf, build_gps-roundtrip}
use zx909_gw.Server.State.{Server, World}
use zx909_gw.Server.Handle.{Conn}
use zx909_gw.Server.Drain.{receive}
use zx909_gw.Device.{
  Sending, build_login, build_gps, asks_time, reports_fix, reports_status, transcript,
}
use zx909_gw.Device.Session.Served.{IsServed, transcript-IsServed}
use zx909_gw.Device.RoundTrip.{build_login-roundtrip}

build_login-roundtrip_example :
    (raw : Bytes) × (f : Frame) × (build_login sample_imei ≡ some raw)
    × (extract_frame (raw ++ (0x78 ∷ [])) ≡ frame f (length raw))
    × (f.proto ≡ 0x01)
    × (parse_login f.body ≡ ok sample_imei)
build_login-roundtrip_example = build_login-roundtrip sample_imei (0x78 ∷ []) refl (ground arith)

-- The speed 13 and the heading 266 end the packet in 0D 35 0A.
build_gps-roundtrip_example :
    (f : Frame) × (p : Position sample_platform) × (extract_frame
        (build_gps sample_time 64247294 202543583 13 266 ++ (1 ∷ []))
      ≡ frame f 24)
    × (parse_gps sample_platform f.body ≡ ok p)
    × IsFixOf sample_platform 64247294 202543583 13 266 p
build_gps-roundtrip_example =
    build_gps-roundtrip sample_platform sample_time 64247294 202543583 13 266 (1 ∷ []) (omega arith)
      (omega arith) (omega arith) (omega arith)

transcript-IsServed_example :
    (let ws : ℕ → World sample_platform = λ i. sample_world in
      let fresh : Conn = record sample_conn { imei = []; sess = none } in
      let xs : List Sending =
        asks_time ∷ reports_fix sample_time 64247294 202543583 ∷ reports_status ∷ [] in
      (bytes : Bytes) × (c' : Conn) × (s' : Server sample_platform) × (transcript sample_imei
          sample_time 64247294 202543583
          (reports_status ∷ [])
        ≡ some bytes)
      × (receive sample_platform ws bytes fresh sample_server ≡ some (c', s'))
      × (c'.buf ≡ [])
      × IsServed sample_platform ws sample_imei xs fresh sample_server c' s')
transcript-IsServed_example =
    transcript-IsServed sample_platform (λ i. sample_world) sample_imei sample_time 64247294
      202543583 (reports_status ∷ []) (record sample_conn { imei = []; sess = none }) sample_server
      refl (ground arith) refl
