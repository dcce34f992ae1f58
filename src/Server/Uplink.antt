-- ===== src/Server/Uplink.antt =====
-- internal/server/server.go: the path to ThingsBoard, and the goroutines that use it.
use zx909_gw.Prelude.{ℕ, Bool, true, false, not, [], ◌∷◌, Option, none, some, if◌then◌else◌}
use zx909_gw.Bytes.{Bytes}
use zx909_gw.Platform.{Platform}
use zx909_gw.Protocol.WifiLbs.{WifiLbs}
use zx909_gw.Server.State.{
  Server, World, Task, Telemetry, Location, connect_device, publish_telemetry, lbs_wifi,
  maybe_connect_tb, resolve_and_publish_lbs, emit, find_session, is_tb_connected, mark_connected,
}

-- `imei == ""`.
abbrev pub is_empty : Bytes → Bool
is_empty [] = true
is_empty (_ ∷ _) = false

module _ (P : Platform) where
  open P use {Time, is_zero}

  unfoldable pub uplink_allowed : World P → Bytes → Server P → Bool
  uplink_allowed w imei s =
      if is_empty imei then false else if not s.reg_enabled then true else w.is_registered imei

  -- Where the map has the session, note in it that ThingsBoard knows the device.
  unfoldable pub mark_found : Option ℕ → Server P → Server P
  mark_found none s = s
  mark_found (some p) s = mark_connected P p s

  unfoldable pub ensure_tb_connected : World P → Bytes → Server P → Bool × Server P
  unfolding uplink_allowed emit
  ensure_tb_connected w imei s =
      let sess = find_session imei s.sessions in
      let s' = emit P (connect_device imei) s in
      if not (uplink_allowed w imei s)
      then (false, s)
      else if is_tb_connected P sess s
      then (true, s)
      else if not (w.connect_ok imei)
      then (false, s')
      else (true, mark_found sess s')

  unfoldable pub publish_if : Bool → World P → Bytes → Time → Telemetry P → Server P → Server P
  unfolding emit
  publish_if true w imei ts values s =
      emit P (publish_telemetry imei (if is_zero ts then w.later else ts) values) s
  publish_if false w imei ts values s = s

  -- `publishLocation` and `publishTelemetry`, which differ in what they log.
  unfoldable pub publish : World P → Bytes → Time → Telemetry P → Server P → Server P
  unfolding publish_if
  publish w imei ts values s =
      let r = ensure_tb_connected w imei s in
      if is_empty imei then s else publish_if r.0 w imei ts values r.1

  unfoldable pub connect_session : World P → Option ℕ → Bytes → Server P → Server P
  unfolding uplink_allowed mark_found emit
  connect_session w none imei s = s
  connect_session w (some p) imei s =
      let s' = emit P (connect_device imei) s in
      if is_empty imei
      then s
      else if not (uplink_allowed w imei s)
      then s
      else if not (w.connect_ok imei)
      then s'
      else mark_connected P p s'

  unfoldable pub publish_located :
      World P → Bytes → WifiLbs P → Option (Location P) → Server P → Server P
  publish_located w imei wl none s = s
  publish_located w imei wl (some at) s =
      publish w imei wl.time (lbs_wifi at.latitude at.longitude) s

  -- A goroutine that the server has started runs.
  unfoldable pub run_task : World P → Task P → Server P → Server P
  unfolding connect_session publish_located
  run_task w (maybe_connect_tb sess imei) s = connect_session w sess imei s
  run_task w (resolve_and_publish_lbs imei wl) s =
      publish_located w imei wl (w.locate wl.wifi wl.cells) s
