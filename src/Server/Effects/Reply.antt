-- ===== src/Server/Effects/Reply.antt =====
-- What a handled frame makes the server ask of others: the uplink requests, then the reply.
use mathlib.Core.Path.{subst}
use zx909_gw.Prelude.Int.{pos, ltb_ℤ}
use zx909_gw.Prelude.{
  ℕ, refl, inl, inr, not, ◌&&◌, List, [], ◌∷◌, Option, none, some, arith, if◌then◌else◌, ◌==◌,
  Bool-cases, Option-cases,
}
use zx909_gw.Bytes.{Bytes}
use zx909_gw.Platform.{Platform}
use zx909_gw.Protocol.Frame.{Frame, is_gps, is_wifi_lbs}
use zx909_gw.Protocol.Parsed.{Parsed, ok, err}
use zx909_gw.Protocol.Status.{Status, parse_status}
use zx909_gw.Protocol.Gps.{Position, parse_gps}
use zx909_gw.Protocol.WifiLbs.{WifiLbs, parse_wifi_lbs}
use zx909_gw.Protocol.Ack.{
  build_login_ack, build_datetime_ack, build_status_echo, datetime_from_body,
}
use zx909_gw.Protocol.Commands.{build_default_settings, build_time_sync_reply}
use zx909_gw.Server.State.{
  Server, World, Telemetry, Output, write, close, emit, touch, find_session, deref,
  register_session, close_old,
}
use zx909_gw.Server.Uplink.{is_empty, publish}
use zx909_gw.Server.Handle.{
  Conn, login_parsed, iccid_parsed, status_parsed, gps_parsed, wifi_lbs_parsed, ack_datetime,
  handle_gps, handle_wifi_lbs, handle_status, handle_frame,
}
use zx909_gw.Server.Effects.{
  Permitted, Logs, Logs-none, Logs-emit, Logs-after, touch-log, touch-reg_enabled, publish-Logs,
}

module _ (P : Platform) where
  open P use {Time}

  module _ (w : World P) (c : Conn) (s : Server P) where
    abbrev Own : Output P → Type 0
    Own = Permitted P w s.reg_enabled c.imei c.id

    touched-Logs : Logs P Own [] s (touch P w.now c.sess s)
    touched-Logs = Logs-none P s _ (touch-log P w.now c.sess s)

    touched_publish-Logs :
        (ts : Time) (values : Telemetry P)
        → Logs P Own [] s (publish P w c.imei ts values (touch P w.now c.sess s))
    touched_publish-Logs ts values =
        let t = touch P w.now c.sess s in
        Logs-after P {t = t} (touch-log P w.now c.sess s) (
          subst (λ r. Logs P (Permitted P w r c.imei c.id) [] t (publish P w c.imei ts values t))
            (touch-reg_enabled P w.now c.sess s) (publish-Logs P w c.imei c.id ts values t))

    iccid_parsed-Logs :
        (r : Parsed Bytes) → Logs P Own [] s (iccid_parsed P w r c.imei (touch P w.now c.sess s))
    unfolding iccid_parsed
    iccid_parsed-Logs (err e) = touched-Logs
    iccid_parsed-Logs (ok id) = touched_publish-Logs _ _

    gps_parsed-Logs :
        (r : Parsed (Position P))
        → Logs P Own [] s (gps_parsed P w r c.imei (touch P w.now c.sess s))
    unfolding gps_parsed
    gps_parsed-Logs (err e) = touched-Logs
    gps_parsed-Logs (ok p) = touched_publish-Logs _ _

    status_parsed-Logs :
        (r : Parsed Status) → Logs P Own [] s (status_parsed P w r c.imei (touch P w.now c.sess s))
    unfolding status_parsed
    status_parsed-Logs (err e) = touched-Logs
    status_parsed-Logs (ok st) = elim (Bool-cases (ltb_ℤ st.battery_percent (pos 0))) [
      | inl unknown ↦ rw unknown touched-Logs
      | inr known ↦ rw known (touched_publish-Logs _ _)
    ]

    wifi_lbs_parsed-Logs :
        (r : Parsed (WifiLbs P))
        → Logs P Own [] s (wifi_lbs_parsed P r c.imei (touch P w.now c.sess s))
    unfolding wifi_lbs_parsed
    wifi_lbs_parsed-Logs (err e) = touched-Logs
    wifi_lbs_parsed-Logs (ok wl) =
        elim (Bool-cases (not (is_empty c.imei) && (touch P w.now c.sess s).geo_enabled)) [
          | inl resolves ↦ rw resolves (Logs-none P s _ (touch-log P w.now c.sess s))
          | inr stays ↦ rw stays touched-Logs
        ]

    ack_datetime-Logs :
        (f : Frame) {t : Server P}
        → Logs P Own [] s t
        → Logs P Own
            (write c.id (build_datetime_ack f.proto (datetime_from_body f.body)) ∷ [])
            s
            (ack_datetime P f c t)
    unfolding ack_datetime
    ack_datetime-Logs f l = Logs-emit P _ l

    handle_gps-Logs :
        (f : Frame)
        → Logs P Own
            (if is_empty c.imei
              then []
              else write c.id (build_datetime_ack f.proto (datetime_from_body f.body)) ∷ [])
            s
            (handle_gps P w f c s)
    unfolding handle_gps
    handle_gps-Logs f = elim (Bool-cases (is_empty c.imei)) [
      | inl unnamed ↦ rw unnamed (Logs-none P s s refl)
      | inr named ↦ rw named (ack_datetime-Logs f (gps_parsed-Logs (parse_gps P f.body)))
    ]

    handle_wifi_lbs-Logs :
        (f : Frame)
        → Logs P Own
            (write c.id (build_datetime_ack f.proto (datetime_from_body f.body)) ∷ [])
            s
            (handle_wifi_lbs P w f c s)
    unfolding handle_wifi_lbs
    handle_wifi_lbs-Logs f = ack_datetime-Logs f (wifi_lbs_parsed-Logs (parse_wifi_lbs P f.body))

    handle_status-Logs :
        (f : Frame)
        → Logs P Own (write c.id (build_status_echo f.raw) ∷ []) s (handle_status P w f c s)
    unfolding handle_status
    handle_status-Logs f = Logs-emit P _ (status_parsed-Logs (parse_status f.body))

    touched_write-Logs :
        (bytes : Bytes)
        → Logs P Own (write c.id bytes ∷ []) s (emit P (write c.id bytes) (touch P w.now c.sess s))
    touched_write-Logs bytes = Logs-emit P _ touched-Logs

    close_old-Logs : (old : Option ℕ) → Logs P Own [] s (close_old P old c.id s)
    unfolding close_old
    close_old-Logs none = Logs-none P s s refl
    close_old-Logs (some p) = elim (Option-cases (deref P p s.heap)) [
      | inl gone ↦ rw (gone, close_old) (Logs-none P s s refl)
      | inr (x, e) ↦
          rw (e, close_old)
            (elim (Bool-cases (x.conn == c.id)) [
              | inl same ↦ rw same (Logs-none P s s refl)
              | inr other ↦ rw other (
                  unfold emit in
                  record {
                    before = close x.conn ∷ [];
                    logs = refl;
                    kind = (λ e. ground (arith, other, e), tt);
                  })
            ])
    ]

    login_parsed-Logs :
        (r : Parsed Bytes)
        → Logs P Own (write c.id build_login_ack ∷ []) s (login_parsed P w r c s).1
    unfolding login_parsed register_session
    login_parsed-Logs (err e) = Logs-emit P _ (Logs-none P s s refl)
    login_parsed-Logs (ok id) =
        let l = close_old-Logs (find_session id s.sessions) in
        let m = Logs-emit P (write c.id build_login_ack) l in
        record { before = m.before; logs = m.logs; kind = m.kind }

    -- The reply that each protocol is due, whatever the parsers, the registry and ThingsBoard say.
    abbrev pub reply : Frame → List (Output P)
    reply f =
        if f.proto == 0x01
        then write c.id build_login_ack ∷ []
        else if f.proto == 0x30
        then write c.id (build_time_sync_reply P w.later) ∷ []
        else if f.proto == 0x57
        then write c.id build_default_settings ∷ []
        else if f.proto == 0xB3
        then []
        else if f.proto == 0x13
        then write c.id (build_status_echo f.raw) ∷ []
        else if is_gps f.proto
        then (if is_empty c.imei
            then []
            else write c.id (build_datetime_ack f.proto (datetime_from_body f.body)) ∷ [])
        else if is_wifi_lbs f.proto
        then write c.id (build_datetime_ack f.proto (datetime_from_body f.body)) ∷ []
        else []

    -- Handling a frame on a connection with any parsers' results logs first the requests it leads to
    -- and then exactly the reply that its protocol number is due (the login reply even if the login
    -- does not parse; none to a GPS frame before a login). The requests are only: connecting the
    -- device of the connection's IMEI or publishing for it, both only if the IMEI is not empty and
    -- the registry is off or knows it, and closing another connection.
    pub handle_frame-Logs : (f : Frame) → Logs P Own (reply f) s (handle_frame P w f c s).1
    unfolding handle_frame
    handle_frame-Logs f = elim (Bool-cases (f.proto == 0x01)) [
      | inl is_login ↦ rw is_login (login_parsed-Logs _)
      | inr p1 ↦ rw p1 (elim (Bool-cases (f.proto == 0x30)) [
        | inl is_time ↦ rw is_time (touched_write-Logs _)
        | inr p2 ↦ rw p2 (elim (Bool-cases (f.proto == 0x57)) [
          | inl is_param ↦ rw is_param (touched_write-Logs _)
          | inr p3 ↦ rw p3 (elim (Bool-cases (f.proto == 0xB3)) [
            | inl is_iccid ↦ rw is_iccid (iccid_parsed-Logs _)
            | inr p4 ↦ rw p4 (elim (Bool-cases (f.proto == 0x13)) [
              | inl is_status ↦ rw is_status (handle_status-Logs f)
              | inr p5 ↦ rw p5 (elim (Bool-cases (is_gps f.proto)) [
                | inl gps ↦ rw gps (handle_gps-Logs f)
                | inr p6 ↦ rw p6 (elim (Bool-cases (is_wifi_lbs f.proto)) [
                  | inl wifi ↦ rw wifi (handle_wifi_lbs-Logs f)
                  | inr p7 ↦ rw p7 touched-Logs
                ])
              ])
            ])
          ])
        ])
      ])
    ]
