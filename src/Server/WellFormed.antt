-- ===== src/Server/WellFormed.antt =====
-- Every operation of the server keeps the session map well formed.
pub mod Reach
use zx909_gw.Prelude.{
  ℕ, suc, ◌≡◌, refl, ◌∙◌, sym, inl, inr, Bool, true, false, not, List, [], ◌∷◌, Option, none, some,
  arith, if◌then◌else◌, ◌==◌, Bool-cases, Option-cases,
}
use zx909_gw.Bytes.{Bytes}
use zx909_gw.Platform.{Platform}
use zx909_gw.Protocol.Frame.{Frame, is_gps, is_wifi_lbs}
use zx909_gw.Protocol.Parsed.{Parsed, ok, err}
use zx909_gw.Protocol.Status.{parse_status}
use zx909_gw.Protocol.Gps.{parse_gps}
use zx909_gw.Protocol.Iccid.{parse_iccid}
use zx909_gw.Protocol.WifiLbs.{parse_wifi_lbs}
use zx909_gw.Protocol.Ack.{build_login_ack}
use zx909_gw.Protocol.Commands.{build_default_settings, build_time_sync_reply}
use zx909_gw.Server.State.{
  Server, World, Session, Task, maybe_connect_tb, Output, write, close, disconnect_device,
  same_string, find_session, put_session, emit, deref, is_current, register_session, remove_session,
  close_old, is_tb_connected, touch,
}
use zx909_gw.Server.Uplink.{is_empty, run_task}
use zx909_gw.Server.Handle.{
  Conn, hang_up, login_parsed, handle_gps, handle_wifi_lbs, handle_status, handle_frame,
  send_to_device,
}
use zx909_gw.Server.Sessions.{
  same_string_iff, find_session-put_session, find_session-delete_session, put_session-Keys,
  delete_session-Keys,
}
use zx909_gw.Server.Keeps.{
  imei_at, IsWellFormed, Keeps, Keeps-refl, Keeps-trans, Keeps-IsWellFormed, emit-Keeps,
  start-Keeps, if-Keeps, run_task-Keeps, touched, iccid_parsed-Keeps, gps_parsed-Keeps,
  status_parsed-Keeps, wifi_lbs_parsed-Keeps, ack_datetime-Keeps,
}

module _ (P : Platform) where
  open P use {Time}

  pub close_old-Keeps : (p : Option ℕ) (conn : ℕ) (s : Server P) → Keeps P s (close_old P p conn s)
  unfolding close_old
  close_old-Keeps none conn s = Keeps-refl P s
  close_old-Keeps (some p) conn s = elim (Option-cases (deref P p s.heap)) [
    | inl gone ↦ rw (gone, close_old) (Keeps-refl P s)
    | inr (x, e) ↦
        rw (e, close_old)
          (if-Keeps P (not (x.conn == conn)) s _ _ (emit-Keeps P (close x.conn) s) (Keeps-refl P s))
  ]

  -- What a login does to a server `s` in which the old connection has been closed.
  put_fresh : Session P → Server P → Server P
  put_fresh x s = record s {
    heap = (s.next, x) ∷ s.heap;
    next = suc s.next;
    sessions = put_session x.imei s.next s.sessions;
  }

  pub imei_at-fresh :
      (n q : ℕ) (x : Session P) (h : List (ℕ × Session P))
      → imei_at P q ((n, x) ∷ h) ≡ (if n == q then some x.imei else imei_at P q h)
  unfolding deref
  imei_at-fresh n q x h = ground arith

  put_fresh-IsWellFormed :
      (x : Session P) (s : Server P) → IsWellFormed P s → IsWellFormed P (put_fresh x s)
  unfolding put_fresh
  put_fresh-IsWellFormed x s v = record {
    keys = put_session-Keys x.imei s.next s.sessions v.keys;
    owned = λ imei p e.
        imei_at-fresh s.next p x s.heap
        ∙ fresh_owned imei p (sym (find_session-put_session x.imei imei s.next s.sessions) ∙ e);
    unused = λ p h. imei_at-fresh s.next p x s.heap ∙ ground (arith, v.unused p);
  }
    where
      fresh_owned :
          (imei : Bytes) (p : ℕ)
          → (if same_string x.imei imei then some s.next else find_session imei s.sessions) ≡ some p
          → (if s.next == p then some x.imei else imei_at P p s.heap) ≡ some imei
      fresh_owned imei p e = elim (Bool-cases (same_string x.imei imei)) [
        | inl same ↦ ground (arith, same_string_iff x.imei imei)
        | inr other ↦ ground (arith, v.owned imei p, v.unused p)
      ]

  pub register_session-IsWellFormed :
      (now later : Time) (imei : Bytes) (conn : ℕ) (remote : Bytes) (s : Server P)
      → IsWellFormed P s
      → IsWellFormed P (register_session P now later imei conn remote s).1
  unfolding register_session put_fresh
  register_session-IsWellFormed now later imei conn remote s v =
      put_fresh-IsWellFormed _ _
        (Keeps-IsWellFormed P (close_old-Keeps (find_session imei s.sessions) conn s) v)

  pub remove_session-IsWellFormed :
      (imei : Bytes) (sess : Option ℕ) (s : Server P)
      → IsWellFormed P s
      → IsWellFormed P (remove_session P imei sess s)
  unfolding remove_session
  remove_session-IsWellFormed imei sess s v =
      elim (Bool-cases (is_current P (find_session imei s.sessions) sess)) [
        | inr stale ↦ rw stale v
        | inl current ↦ rw current (record {
          keys = delete_session-Keys imei s.sessions v.keys;
          owned =
              λ k p e. kept k p (sym (find_session-delete_session imei k s.sessions v.keys) ∙ e);
          unused = v.unused;
        })
      ]
    where
      kept :
          (k : Bytes) (p : ℕ)
          → (if same_string imei k then none else find_session k s.sessions) ≡ some p
          → imei_at P p s.heap ≡ some k
      kept k p e = v.owned k p (ground arith)

  pub login_parsed-IsWellFormed :
      (w : World P) (r : Parsed Bytes) (c : Conn) (s : Server P)
      → IsWellFormed P s
      → IsWellFormed P (login_parsed P w r c s).1
  unfolding login_parsed
  login_parsed-IsWellFormed w (err e) c s v = Keeps-IsWellFormed P (emit-Keeps P _ s) v
  login_parsed-IsWellFormed w (ok id) c s v =
      let r = register_session P w.now w.later id c.id c.remote s in
      Keeps-IsWellFormed P
        (Keeps-trans P (emit-Keeps P (write c.id build_login_ack) r.1)
          (start-Keeps P (maybe_connect_tb (some r.0) id) _))
        (register_session-IsWellFormed w.now w.later id c.id c.remote s v)

  handle_gps-Keeps :
      (w : World P) (f : Frame) (c : Conn) (s : Server P) → Keeps P s (handle_gps P w f c s)
  unfolding handle_gps
  handle_gps-Keeps w f c s =
      if-Keeps P (is_empty c.imei) s _ _ (Keeps-refl P s)
        (ack_datetime-Keeps P w c s f (gps_parsed-Keeps P w c s (parse_gps P f.body)))

  handle_wifi_lbs-Keeps :
      (w : World P) (f : Frame) (c : Conn) (s : Server P) → Keeps P s (handle_wifi_lbs P w f c s)
  unfolding handle_wifi_lbs
  handle_wifi_lbs-Keeps w f c s =
      ack_datetime-Keeps P w c s f (wifi_lbs_parsed-Keeps P w c s (parse_wifi_lbs P f.body))

  handle_status-Keeps :
      (w : World P) (f : Frame) (c : Conn) (s : Server P) → Keeps P s (handle_status P w f c s)
  unfolding handle_status
  handle_status-Keeps w f c s =
      Keeps-trans P (status_parsed-Keeps P w c s (parse_status f.body)) (emit-Keeps P _ _)

  touched_emit-Keeps :
      (w : World P) (c : Conn) (s : Server P) (o : Output P)
      → Keeps P s (emit P o (touch P w.now c.sess s))
  touched_emit-Keeps w c s o = Keeps-trans P (touched P w c s) (emit-Keeps P o _)

  -- Every frame but a login leaves the map alone.
  pub other-Keeps :
      (w : World P) (f : Frame) (c : Conn) (s : Server P)
      → (f.proto == 0x01) ≡ false
      → Keeps P s (handle_frame P w f c s).1
  unfolding handle_frame
  other-Keeps w f c s no_login = rw no_login (elim (Bool-cases (f.proto == 0x30)) [
    | inl is_time ↦
        rw is_time (touched_emit-Keeps w c s (write c.id (build_time_sync_reply P w.later)))
    | inr p2 ↦ rw p2 (elim (Bool-cases (f.proto == 0x57)) [
      | inl is_param ↦ rw is_param (touched_emit-Keeps w c s (write c.id build_default_settings))
      | inr p3 ↦ rw p3 (elim (Bool-cases (f.proto == 0xB3)) [
        | inl is_iccid ↦ rw is_iccid (iccid_parsed-Keeps P w c s (parse_iccid f.body))
        | inr p4 ↦ rw p4 (elim (Bool-cases (f.proto == 0x13)) [
          | inl is_status ↦ rw is_status (handle_status-Keeps w f c s)
          | inr p5 ↦ rw p5 (elim (Bool-cases (is_gps f.proto)) [
            | inl gps ↦ rw gps (handle_gps-Keeps w f c s)
            | inr p6 ↦ rw p6 (elim (Bool-cases (is_wifi_lbs f.proto)) [
              | inl wifi ↦ rw wifi (handle_wifi_lbs-Keeps w f c s)
              | inr p7 ↦ rw p7 (touched P w c s)
            ])
          ])
        ])
      ])
    ])
  ])

  pub handle_frame-IsWellFormed :
      (w : World P) (f : Frame) (c : Conn) (s : Server P)
      → IsWellFormed P s
      → IsWellFormed P (handle_frame P w f c s).1
  handle_frame-IsWellFormed w f c s v = elim (Bool-cases (f.proto == 0x01)) [
    | inl is_login ↦ unfold handle_frame in rw is_login (login_parsed-IsWellFormed w _ c s v)
    | inr other ↦ Keeps-IsWellFormed P (other-Keeps w f c s other) v
  ]

  reported :
      (b : Bool) (o : Output P) (s : Server P)
      → IsWellFormed P s
      → IsWellFormed P (if b then emit P o s else s)
  reported true o s v = Keeps-IsWellFormed P (emit-Keeps P o s) v
  reported false o s v = v

  either :
      (b : Bool) (s t : Server P)
      → IsWellFormed P s
      → IsWellFormed P t
      → IsWellFormed P (if b then s else t)
  either true s t v u = v
  either false s t v u = u

  pub hang_up-IsWellFormed :
      (c : Conn) (s : Server P) → IsWellFormed P s → IsWellFormed P (hang_up P c s)
  unfolding hang_up
  hang_up-IsWellFormed c s v =
      let removed = remove_session P c.imei c.sess s in
      Keeps-IsWellFormed P (emit-Keeps P (close c.id) _) (
        either (is_empty c.imei) s _ v (
          reported (is_tb_connected P c.sess removed) (disconnect_device c.imei) removed
            (remove_session-IsWellFormed c.imei c.sess s v)))

  pub send_to_device-Keeps :
      (w : World P) (imei payload : Bytes) (s : Server P)
      → Keeps P s (send_to_device P w imei payload s).1
  unfolding send_to_device
  send_to_device-Keeps w imei payload s = elim (Option-cases (find_session imei s.sessions)) [
    | inl offline ↦ rw (offline, send_to_device) (Keeps-refl P s)
    | inr (p, e) ↦ elim (Option-cases (deref P p s.heap)) [
      | inl gone ↦ rw (e, gone, send_to_device) (Keeps-refl P s)
      | inr (x, d) ↦ rw (e, d, send_to_device) (emit-Keeps P (write x.conn payload) s)
    ]
  ]
