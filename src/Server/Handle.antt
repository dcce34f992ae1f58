-- ===== src/Server/Handle.antt =====
-- internal/server/server.go: `handleFrame`, the end of a connection and `SendToDevice`.
use zx909_gw.Prelude.{
  ℕ, Bool, false, not, ◌&&◌, [], ◌∷◌, ◌++◌, Option, none, some, ◌==◌, if◌then◌else◌,
}
use zx909_gw.Prelude.Int.{pos, ltb_ℤ}
use zx909_gw.Bytes.{Bytes}
use zx909_gw.Platform.{Platform}
use zx909_gw.Protocol.Frame.{Frame, is_gps, is_wifi_lbs}
use zx909_gw.Protocol.Parsed.{Parsed, ok, err}
use zx909_gw.Protocol.Login.{parse_login}
use zx909_gw.Protocol.Status.{Status, parse_status}
use zx909_gw.Protocol.Gps.{Position, parse_gps}
use zx909_gw.Protocol.Iccid.{parse_iccid}
use zx909_gw.Protocol.WifiLbs.{WifiLbs, parse_wifi_lbs}
use zx909_gw.Protocol.Ack.{
  build_login_ack, build_datetime_ack, build_status_echo, datetime_from_body,
}
use zx909_gw.Protocol.Commands.{build_default_settings, build_time_sync_reply}
use zx909_gw.Server.State.{
  Server, World, Task, iccid, battery, gps, write, close, disconnect_device, maybe_connect_tb,
  resolve_and_publish_lbs, emit, touch, find_session, deref, is_tb_connected, register_session,
  remove_session,
}
use zx909_gw.Server.Uplink.{is_empty, publish}

-- The variables of `handleConn`.
pub record Conn : Type 0 where
  pub id : ℕ
  pub remote : Bytes
  pub imei : Bytes
  pub sess : Option ℕ
  pub buf : Bytes

module _ (P : Platform) where
  open P use {Time}

  -- `go f(…)`.
  unfoldable pub start : Task P → Server P → Server P
  start t s = record s { tasks = s.tasks ++ (t ∷ []) }

  unfoldable pub login_parsed : World P → Parsed Bytes → Conn → Server P → Conn × Server P
  unfolding start emit
  login_parsed w (err e) c s = (c, emit P (write c.id build_login_ack) s)
  login_parsed w (ok id) c s =
      let r = register_session P w.now w.later id c.id c.remote s in
      (
        record c { imei = id; sess = some r.0 },
        start (maybe_connect_tb (some r.0) id) (emit P (write c.id build_login_ack) r.1),
      )

  unfoldable pub iccid_parsed : World P → Parsed Bytes → Bytes → Server P → Server P
  iccid_parsed w (err e) imei s = s
  iccid_parsed w (ok id) imei s = publish P w imei w.later (iccid id) s

  unfoldable pub status_parsed : World P → Parsed Status → Bytes → Server P → Server P
  status_parsed w (err e) imei s = s
  status_parsed w (ok st) imei s =
      if ltb_ℤ st.battery_percent (pos 0)
      then s
      else publish P w imei w.later (battery st.battery_percent) s

  unfoldable pub gps_parsed : World P → Parsed (Position P) → Bytes → Server P → Server P
  gps_parsed w (err e) imei s = s
  gps_parsed w (ok p) imei s = publish P w imei p.time (gps p) s

  unfoldable pub wifi_lbs_parsed : Parsed (WifiLbs P) → Bytes → Server P → Server P
  unfolding start
  wifi_lbs_parsed (err e) imei s = s
  wifi_lbs_parsed (ok wl) imei s =
      if not (is_empty imei) && s.geo_enabled then start (resolve_and_publish_lbs imei wl) s else s

  -- The datetime ACK of a GPS or Wi-Fi / LBS frame.
  unfoldable pub ack_datetime : Frame → Conn → Server P → Server P
  unfolding emit
  ack_datetime f c s =
      emit P (write c.id (build_datetime_ack f.proto (datetime_from_body f.body))) s

  unfoldable pub handle_gps : World P → Frame → Conn → Server P → Server P
  unfolding gps_parsed ack_datetime
  handle_gps w f c s =
      if is_empty c.imei
      then s
      else ack_datetime f c (gps_parsed w (parse_gps P f.body) c.imei (touch P w.now c.sess s))

  unfoldable pub handle_wifi_lbs : World P → Frame → Conn → Server P → Server P
  unfolding wifi_lbs_parsed ack_datetime
  handle_wifi_lbs w f c s =
      ack_datetime f c (wifi_lbs_parsed (parse_wifi_lbs P f.body) c.imei (touch P w.now c.sess s))

  unfoldable pub handle_status : World P → Frame → Conn → Server P → Server P
  unfolding status_parsed emit
  handle_status w f c s =
      emit P (write c.id (build_status_echo f.raw))
        (status_parsed w (parse_status f.body) c.imei (touch P w.now c.sess s))

  unfoldable pub handle_frame : World P → Frame → Conn → Server P → Conn × Server P
  unfolding login_parsed iccid_parsed handle_status handle_gps handle_wifi_lbs
  handle_frame w f c s =
      let touched = touch P w.now c.sess s in
      if f.proto == 0x01
      then login_parsed w (parse_login f.body) c s
      else if f.proto == 0x30
      then (c, emit P (write c.id (build_time_sync_reply P w.later)) touched)
      else if f.proto == 0x57
      then (c, emit P (write c.id build_default_settings) touched)
      else if f.proto == 0xB3
      then (c, iccid_parsed w (parse_iccid f.body) c.imei touched)
      else if f.proto == 0x13
      then (c, handle_status w f c s)
      else if is_gps f.proto
      then (c, handle_gps w f c s)
      else if is_wifi_lbs f.proto
      then (c, handle_wifi_lbs w f c s)
      else (c, touched)

  -- The deferred calls of `handleConn`: the session leaves the map, the device is reported as
  -- disconnected, the socket is closed.
  unfoldable pub hang_up : Conn → Server P → Server P
  unfolding emit
  hang_up c s =
      let removed = remove_session P c.imei c.sess s in
      let reported = emit P (disconnect_device c.imei) removed in
      emit P (close c.id) (
        if is_empty c.imei
        then s
        else if is_tb_connected P c.sess removed
        then reported
        else removed)

  -- `SendToDevice`; `false` stands for its error.
  unfoldable pub send_to_device : World P → Bytes → Bytes → Server P → Bool × Server P
  unfolding emit
  send_to_device w imei payload s = elim (find_session imei s.sessions) [
    | none ↦ (false, s)
    | some p ↦ elim (deref P p s.heap) [
      | none ↦ (false, s)
      | some x ↦ (w.write_ok x.conn, emit P (write x.conn payload) s)
    ]
  ]
