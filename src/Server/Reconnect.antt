-- ===== src/Server/Reconnect.antt =====
-- Login, hang-up and commands around a reconnection of a device.
pub mod Late
use zx909_gw.Prelude.{
  ℕ, ◌≡◌, ◌≢◌, refl, ap, ◌∙◌, inl, inr, ◌++◌, Bool, true, false, ◌&&◌, [], ◌∷◌, Option, none, some,
  arith, append_assoc, if◌then◌else◌, Bool-cases,
}
use zx909_gw.Bytes.{Bytes}
use zx909_gw.Platform.{Platform}
use zx909_gw.Protocol.Parsed.{ok}
use zx909_gw.Server.State.{
  Server, World, Session, close, disconnect_device, same_string, find_session, emit, deref,
  is_tb_connected, is_current, register_session, remove_session, close_old,
}
use zx909_gw.Server.Uplink.{is_empty, uplink_allowed, ensure_tb_connected}
use zx909_gw.Server.Handle.{Conn, login_parsed, hang_up}
use zx909_gw.Server.Sessions.{
  same_string_iff, find_session-put_session, find_session-delete_session,
}
use zx909_gw.Server.Keeps.{IsWellFormed}
use zx909_gw.Server.WellFormed.{login_parsed-IsWellFormed}

pub and_true : (b : Bool) → b ≡ (b && true)
and_true b = ground arith

pub and_false : (b : Bool) → false ≡ (b && false)
and_false b = ground arith

module _ (P : Platform) where
  open P use {Time}

  pub close_old-sessions :
      (p : Option ℕ) (conn : ℕ) (s : Server P)
      → ((close_old P p conn s).sessions ≡ s.sessions)
        × ((close_old P p conn s).heap ≡ s.heap)
        × ((close_old P p conn s).next ≡ s.next)
  unfolding close_old emit
  close_old-sessions none conn s = (refl, refl, refl)
  close_old-sessions (some p) conn s = ground arith

  -- The session that a login on connection `c` sets up.
  abbrev logged_in : World P → Bytes → Conn → Session P
  logged_in w id c = record {
    imei = id;
    conn = c.id;
    remote = c.remote;
    connected = w.now;
    last_seen = w.later;
    tb_connected = false;
  }

  -- After a login that parses, the map leads from the IMEI to a new session, which is the one of the
  -- connection, and from every other IMEI to where it led before; the session has the connection's
  -- number and address and the IMEI, and is not connected to ThingsBoard yet.
  pub login-find_session :
      (w : World P) (id k : Bytes) (c : Conn) (s : Server P)
      → let r = login_parsed P w (ok id) c s in
        (find_session k r.1.sessions
          ≡ (if same_string id k then some s.next else find_session k s.sessions))
        × (r.0.sess ≡ some s.next)
        × (deref P s.next r.1.heap ≡ some (logged_in w id c))
  unfolding login_parsed register_session deref
  login-find_session w id k c s =
      let same = close_old-sessions (find_session id s.sessions) c.id s in
      (
        rw (same.0, same.2) (find_session-put_session id k s.next s.sessions),
        ap some same.2,
        ground (arith, same),
      )

  pub hang_up-sessions :
      (c : Conn) (s : Server P)
      → (hang_up P c s).sessions
        ≡ (if is_empty c.imei then s.sessions else (remove_session P c.imei c.sess s).sessions)
  unfolding hang_up emit
  hang_up-sessions c s = ground arith

  remove_session-find_session :
      (imei k : Bytes) (sess : Option ℕ) (s : Server P)
      → IsWellFormed P s
      → find_session k (remove_session P imei sess s).sessions ≡ (
          if same_string imei k && is_current P (find_session imei s.sessions) sess
          then none
          else find_session k s.sessions)
  unfolding remove_session
  remove_session-find_session imei k sess s v =
      elim (Bool-cases (is_current P (find_session imei s.sessions) sess)) [
        | inl current ↦ rw current (
            find_session-delete_session imei k s.sessions v.keys
            ∙ ap (λ b. if b then none else find_session k s.sessions)
                (and_true (same_string imei k)))
        | inr stale ↦ rw stale (
            ap (λ b. if b then none else find_session k s.sessions)
              (and_false (same_string imei k)))
      ]

  -- In a well-formed server the end of a connection that has logged in takes its own session out of
  -- the map if it is still the current one of its IMEI, and leaves all other lookups as they were, so
  -- a newer session of the IMEI stays.
  pub hang_up-find_session :
      (c : Conn) (k : Bytes) (s : Server P)
      → IsWellFormed P s
      → is_empty c.imei ≡ false
      → find_session k (hang_up P c s).sessions ≡ (
          if same_string c.imei k && is_current P (find_session c.imei s.sessions) c.sess
          then none
          else find_session k s.sessions)
  hang_up-find_session c k s v named =
      ap (find_session k) (
        hang_up-sessions c s
        ∙ ap (λ b. if b then s.sessions else (remove_session P c.imei c.sess s).sessions) named)
      ∙ remove_session-find_session c.imei k c.sess s v

  superseded :
      (c : Conn) (p q : ℕ) (x : Session P) (s : Server P)
      → is_empty c.imei ≡ false
      → c.sess ≡ some p
      → deref P p s.heap ≡ some x
      → x.tb_connected ≡ true
      → find_session c.imei s.sessions ≡ some q
      → q ≢ p
      → hang_up P c s ≡ emit P (close c.id) (emit P (disconnect_device c.imei) s)
  unfolding hang_up remove_session is_tb_connected
  superseded c p q x s named sess dx cx now other = ground arith

  -- The map holds session `q` of an IMEI that may use the uplink, and the older connection of session
  -- `p` of it ends, both sessions marked as connected to ThingsBoard. The device is then reported as
  -- disconnected, session `q` stays in the map, and the next check of the uplink takes the device for
  -- connected and sends no connect request.
  pub hang_up_superseded :
      (w : World P) (c : Conn) (p q : ℕ) (x y : Session P) (s : Server P)
      → is_empty c.imei ≡ false
      → c.sess ≡ some p
      → deref P p s.heap ≡ some x
      → x.tb_connected ≡ true
      → find_session c.imei s.sessions ≡ some q
      → q ≢ p
      → deref P q s.heap ≡ some y
      → y.tb_connected ≡ true
      → uplink_allowed P w c.imei s ≡ true
      → let t = hang_up P c s in
        (t.log ≡ s.log ++ (disconnect_device c.imei ∷ close c.id ∷ []))
        × (find_session c.imei t.sessions ≡ some q)
        × (ensure_tb_connected P w c.imei t ≡ (true, t))
  hang_up_superseded w c p q x y s named sess dx cx now other dy cy allowed =
      rw (superseded c p q x s named sess dx cx now other) (
        unfold emit ensure_tb_connected is_tb_connected in
        (append_assoc s.log (disconnect_device c.imei ∷ []) _, now, ground arith))

  login-imei :
      (w : World P) (id : Bytes) (c : Conn) (s : Server P)
      → (login_parsed P w (ok id) c s).0.imei ≡ id
  unfolding login_parsed
  login-imei w id c s = refl

  -- In a well-formed server that has a session of one IMEI, a connection logs in with another IMEI
  -- and ends: the session of the first IMEI is still in the map, be it of this connection or not.
  pub relogin_leaks :
      (w : World P) (a b : Bytes) (c : Conn) (s : Server P) (p : ℕ)
      → IsWellFormed P s
      → find_session a s.sessions ≡ some p
      → a ≢ b
      → let r = login_parsed P w (ok b) c s in find_session a (hang_up P r.0 r.1).sessions ≡ some p
  relogin_leaks w a b c s p v e other =
      let r = login_parsed P w (ok b) c s in
      let found = login-find_session w b a c s in
      let differs = same_string_iff b a in
      let still : find_session a r.1.sessions ≡ some p = ground (arith, found.0, differs, e) in
      elim (Bool-cases (is_empty r.0.imei)) [
        | inl unnamed ↦ rw (hang_up-sessions r.0 r.1, unnamed) still
        | inr named ↦ ground (
          arith,
          hang_up-find_session r.0 a r.1 (login_parsed-IsWellFormed P w (ok b) c s v) named,
          differs,
          still,
          login-imei w b c s,
        )
      ]
