-- ===== src/Server/Calls/Handlers.antt =====
-- Whole frames, ends of connections, goroutines and commands as runs of the goroutines that interleave.
use zx909_gw.Prelude.{
  ℕ, ◌≡◌, inl, inr, Bool, true, false, List, ◌∷◌, ◌++◌, if◌then◌else◌, ◌==◌, Option-cases,
}
use zx909_gw.Prelude.Int.{pos, ltb_ℤ}
use zx909_gw.Bytes.{Bytes}
use zx909_gw.Platform.{Platform}
use zx909_gw.Protocol.Frame.{Frame, is_gps, is_wifi_lbs}
use zx909_gw.Protocol.Parsed.{Parsed, ok, err}
use zx909_gw.Protocol.Login.{parse_login}
use zx909_gw.Protocol.Status.{Status, parse_status}
use zx909_gw.Protocol.Gps.{Position, parse_gps}
use zx909_gw.Protocol.Iccid.{parse_iccid}
use zx909_gw.Protocol.WifiLbs.{WifiLbs, parse_wifi_lbs}
use zx909_gw.Protocol.Ack.{build_login_ack}
use zx909_gw.Server.State.{
  Server, World, Task, maybe_connect_tb, resolve_and_publish_lbs, iccid, battery, gps, lbs_wifi,
  write, emit, deref, find_session, touch, is_tb_connected, remove_session,
}
use zx909_gw.Server.Uplink.{is_empty, publish_located, run_task}
use zx909_gw.Server.Handle.{
  Conn, start, login_parsed, iccid_parsed, status_parsed, gps_parsed, wifi_lbs_parsed, ack_datetime,
  handle_gps, handle_wifi_lbs, handle_status, handle_frame, hang_up, send_to_device,
}
use zx909_gw.Server.Calls.System.{
  log_in, touches, writes, closes, reports, registers, removes, resolves,
}
use zx909_gw.Server.Calls.Whole.{
  Runs, Runs-refl, Runs-trans, Runs-Section, publish-Runs, connect_session-Runs, if-Runs,
}

module _ (P : Platform) where
  open P use {Time}

  -- A reply behind a run.
  replied :
      (conn : ℕ) (bytes : Bytes) {s t : Server P}
      → Runs P s t
      → Runs P s (emit P (write conn bytes) t)
  replied conn bytes r = Runs-trans P r (Runs-Section P (writes conn bytes))

  login_parsed-Runs :
      (w : World P) (r : Parsed Bytes) (c : Conn) (s : Server P)
      → Runs P s (login_parsed P w r c s).1
  unfolding login_parsed
  login_parsed-Runs w (err e) c s = Runs-Section P (writes c.id build_login_ack)
  login_parsed-Runs w (ok id) c s =
      unfold start emit log_in in
      replied c.id build_login_ack (Runs-Section P (registers w.now w.later id c.id c.remote))

  module _ (w : World P) (c : Conn) (s : Server P) where
    touched-Runs : Runs P s (touch P w.now c.sess s)
    touched-Runs = Runs-Section P (touches w.now c.sess)

    iccid_parsed-Runs :
        (r : Parsed Bytes) → Runs P s (iccid_parsed P w r c.imei (touch P w.now c.sess s))
    unfolding iccid_parsed
    iccid_parsed-Runs (err e) = touched-Runs
    iccid_parsed-Runs (ok id) =
        Runs-trans P touched-Runs (publish-Runs P w c.imei w.later (iccid id) _)

    gps_parsed-Runs :
        (r : Parsed (Position P)) → Runs P s (gps_parsed P w r c.imei (touch P w.now c.sess s))
    unfolding gps_parsed
    gps_parsed-Runs (err e) = touched-Runs
    gps_parsed-Runs (ok p) = Runs-trans P touched-Runs (publish-Runs P w c.imei p.time (gps p) _)

    status_parsed-Runs :
        (r : Parsed Status) → Runs P s (status_parsed P w r c.imei (touch P w.now c.sess s))
    unfolding status_parsed
    status_parsed-Runs (err e) = touched-Runs
    status_parsed-Runs (ok st) =
        if-Runs P (ltb_ℤ st.battery_percent (pos 0)) s _ _ touched-Runs (
          Runs-trans P touched-Runs
            (publish-Runs P w c.imei w.later (battery st.battery_percent) _))

    wifi_lbs_parsed-Runs :
        (r : Parsed (WifiLbs P)) → Runs P s (wifi_lbs_parsed P r c.imei (touch P w.now c.sess s))
    unfolding wifi_lbs_parsed
    wifi_lbs_parsed-Runs (err e) = touched-Runs
    wifi_lbs_parsed-Runs (ok wl) =
        if-Runs P _ s _ _ (Runs-trans P touched-Runs (Runs-Section P (resolves c.imei wl)))
          touched-Runs

    handle_gps-Runs : (f : Frame) → Runs P s (handle_gps P w f c s)
    unfolding handle_gps ack_datetime
    handle_gps-Runs f =
        if-Runs P (is_empty c.imei) s _ _ (Runs-refl P s)
          (replied c.id _ (gps_parsed-Runs (parse_gps P f.body)))

    pub handle_frame-Runs : (f : Frame) → Runs P s (handle_frame P w f c s).1
    unfolding handle_frame handle_wifi_lbs handle_status ack_datetime
    handle_frame-Runs f =
        if-server (f.proto == 0x01) _ _ (login_parsed-Runs w (parse_login f.body) c s) (
          if-server (f.proto == 0x30) _ _ (replied c.id _ touched-Runs) (
            if-server (f.proto == 0x57) _ _ (replied c.id _ touched-Runs) (
              if-server (f.proto == 0xB3) _ _ (iccid_parsed-Runs (parse_iccid f.body)) (
                if-server (f.proto == 0x13) _ _
                  (replied c.id _ (status_parsed-Runs (parse_status f.body)))
                  (if-server (is_gps f.proto) _ _ (handle_gps-Runs f) (
                    if-server (is_wifi_lbs f.proto) _ _
                      (replied c.id _ (wifi_lbs_parsed-Runs (parse_wifi_lbs P f.body)))
                      touched-Runs))))))
      where
        if-server :
            (b : Bool) (x y : Conn × Server P)
            → Runs P s x.1
            → Runs P s y.1
            → Runs P s (if b then x else y).1
        if-server true x y a d = a
        if-server false x y a d = d

  pub hang_up-Runs : (c : Conn) (s : Server P) → Runs P s (hang_up P c s)
  unfolding hang_up
  hang_up-Runs c s =
      let removed = remove_session P c.imei c.sess s in
      let removes_it = Runs-Section P (removes c.imei c.sess) in
      Runs-trans P
        (if-Runs P (is_empty c.imei) s _ _ (Runs-refl P s) (
          if-Runs P (is_tb_connected P c.sess removed) s _ _
            (Runs-trans P removes_it (Runs-Section P (reports c.imei))) removes_it))
        (Runs-Section P (closes c.id))

  pub send_to_device-Runs :
      (w : World P) (imei payload : Bytes) (s : Server P)
      → Runs P s (send_to_device P w imei payload s).1
  unfolding send_to_device
  send_to_device-Runs w imei payload s = elim (Option-cases (find_session imei s.sessions)) [
    | inl offline ↦ rw (offline, send_to_device) (Runs-refl P s)
    | inr (p, e) ↦ elim (Option-cases (deref P p s.heap)) [
      | inl gone ↦ rw (e, gone, send_to_device) (Runs-refl P s)
      | inr (x, d) ↦ rw (e, d, send_to_device) (Runs-Section P (writes x.conn payload))
    ]
  ]

  pub run_task-Runs :
      (w : World P) (t : Task P) (s : Server P) (ts us : List (Task P))
      → s.tasks ≡ ts ++ (t ∷ us)
      → Runs P s (run_task P w t s)
  unfolding run_task publish_located
  run_task-Runs w (maybe_connect_tb p imei) s ts us started =
      connect_session-Runs P w p imei s ts us started
  run_task-Runs w (resolve_and_publish_lbs imei wl) s ts us started =
      elim (Option-cases (w.locate wl.wifi wl.cells)) [
        | inl nowhere ↦ rw nowhere (Runs-refl P s)
        | inr (l, e) ↦ rw e (publish-Runs P w imei wl.time (lbs_wifi l.latitude l.longitude) s)
      ]
