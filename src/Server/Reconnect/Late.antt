-- ===== src/Server/Reconnect/Late.antt =====
-- The end of a connection before the goroutine of its login has run.
use zx909_gw.Prelude.{ℕ, ◌≡◌, refl, ap, ◌∙◌, ◌++◌, true, false, [], ◌∷◌, Option, none, some, arith}
use zx909_gw.Bytes.{Bytes}
use zx909_gw.Platform.{Platform}
use zx909_gw.Protocol.Parsed.{ok}
use zx909_gw.Server.State.{
  Server, World, Session, close, connect_device, maybe_connect_tb, find_session, emit, deref,
  is_tb_connected, is_current, remove_session, mark_connected,
}
use zx909_gw.Server.Uplink.{is_empty, uplink_allowed, connect_session, mark_found, run_task}
use zx909_gw.Server.Handle.{Conn, login_parsed, hang_up}
use zx909_gw.Server.Sessions.{same_string_iff}
use zx909_gw.Server.Keeps.{IsWellFormed}
use zx909_gw.Server.WellFormed.{login_parsed-IsWellFormed}
use zx909_gw.Server.Reconnect.{logged_in, login-find_session, hang_up-find_session, login-imei}

module _ (P : Platform) where
  -- A connection whose session ThingsBoard does not know ends without a report.
  hang_up-log :
      (c : Conn) (p : ℕ) (x : Session P) (s : Server P)
      → c.sess ≡ some p
      → deref P p s.heap ≡ some x
      → x.tb_connected ≡ false
      → (hang_up P c s).log ≡ s.log ++ (close c.id ∷ [])
  unfolding hang_up emit remove_session is_tb_connected
  hang_up-log c p x s sess dx cx = ground arith

  run_task-connects :
      (w : World P) (p : ℕ) (id : Bytes) (s : Server P)
      → is_empty id ≡ false
      → uplink_allowed P w id s ≡ true
      → (let u = run_task P w (maybe_connect_tb (some p) id) s in
          (u.log ≡ s.log ++ (connect_device id ∷ [])) × (u.sessions ≡ s.sessions))
  unfolding run_task connect_session emit mark_found mark_connected
  run_task-connects w p id s named allowed = ground arith

  login-id :
      (w : World P) (id : Bytes) (c : Conn) (s : Server P)
      → (login_parsed P w (ok id) c s).0.id ≡ c.id
  unfolding login_parsed
  login-id w id c s = refl

  -- The current session of a connection that ends leaves the map.
  left_map :
      (c : Conn) (id : Bytes) (p : ℕ) (s : Server P)
      → IsWellFormed P s
      → is_empty c.imei ≡ false
      → c.imei ≡ id
      → c.sess ≡ some p
      → find_session id s.sessions ≡ some p
      → find_session id (hang_up P c s).sessions ≡ none
  unfolding is_current
  left_map c id p s v named same sess now = ground (
    arith,
    hang_up-find_session P c id s v named,
    same_string_iff c.imei id,
    ap (λ k. find_session k s.sessions) same,
  )

  -- In a well-formed server a connection logs in with an IMEI and ends before the goroutine that its
  -- login has started runs, at a time when the uplink is allowed for the IMEI. The end of the
  -- connection reports nothing, since the session is not marked as connected; the goroutine then asks
  -- ThingsBoard to connect the device, although the IMEI has no session any more.
  pub hang_up_before_connect :
      (w w' : World P) (id : Bytes) (c : Conn) (s : Server P)
      → IsWellFormed P s
      → is_empty id ≡ false
      → (let r = login_parsed P w (ok id) c s in
          let t = hang_up P r.0 r.1 in
          let u = run_task P w' (maybe_connect_tb r.0.sess id) t in
          uplink_allowed P w' id t ≡ true
          → (t.log ≡ r.1.log ++ (close c.id ∷ []))
            × (u.log ≡ t.log ++ (connect_device id ∷ []))
            × (find_session id u.sessions ≡ none))
  hang_up_before_connect w w' id c s v named allowed =
      let r = login_parsed P w (ok id) c s in
      let t = hang_up P r.0 r.1 in
      let found = login-find_session P w id id c s in
      let own = same_string_iff id id in
      let wf = login_parsed-IsWellFormed P w (ok id) c s v in
      let imei = login-imei P w id c s in
      let named' : is_empty r.0.imei ≡ false = ap is_empty imei ∙ named in
      let connects = run_task-connects w' s.next id t named allowed in
      let run = λ (o : Option ℕ). run_task P w' (maybe_connect_tb o id) t in
      let gone : find_session id t.sessions ≡ none =
        left_map r.0 id s.next r.1 wf named' imei found.1 (ground (arith, found.0, own)) in
      (
        hang_up-log r.0 s.next (logged_in P w id c) r.1 found.1 found.2 refl
            ∙ ap (λ n. r.1.log ++ (close n ∷ [])) (login-id w id c s),
        ap (λ o. (run o).log) found.1 ∙ connects.0,
        ap (λ o. find_session id (run o).sessions) found.1 ∙ ap (find_session id) connects.1 ∙ gone,
      )
