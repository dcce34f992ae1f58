-- ===== src/Server/Keeps.antt =====
-- The invariant of the session map, and that every handler keeps it.
use zx909_gw.Prelude.{
  ℕ, ◌≤◌, ◌≡◌, refl, ◌∙◌, inl, inr, Bool, true, false, not, List, [], ◌∷◌, Option, none, some,
  arith, if◌then◌else◌, Bool-cases, Option-cases,
}
use zx909_gw.Bytes.{Bytes}
use zx909_gw.Platform.{Platform}
use zx909_gw.Protocol.Frame.{Frame}
use zx909_gw.Protocol.Parsed.{Parsed, ok, err}
use zx909_gw.Protocol.Status.{Status}
use zx909_gw.Protocol.Gps.{Position}
use zx909_gw.Protocol.WifiLbs.{WifiLbs}
use zx909_gw.Server.State.{
  Server, World, Session, connect_device, iccid, battery, gps, lbs_wifi, Task, maybe_connect_tb,
  resolve_and_publish_lbs, Telemetry, Output, find_session, emit, deref, update, touch,
  mark_connected, is_tb_connected,
}
use zx909_gw.Server.Uplink.{
  is_empty, uplink_allowed, mark_found, ensure_tb_connected, publish_if, publish, connect_session,
  run_task,
}
use zx909_gw.Server.Handle.{
  Conn, start, iccid_parsed, status_parsed, gps_parsed, wifi_lbs_parsed, ack_datetime,
}
use zx909_gw.Server.Sessions.{Keys}

module _ (P : Platform) where
  open P use {Time}

  -- The IMEI of the session at `p`.
  abbrev pub imei_at : ℕ → List (ℕ × Session P) → Option Bytes
  imei_at p h = elim (deref P p h) [ none ↦ none | some x ↦ some x.imei ]

  -- The map has one entry for a key, each entry leads to a session of that IMEI, and no session
  -- stands at an index that is yet to be given out.
  pub record IsWellFormed (s : Server P) : Type 0 where
    pub keys : Keys s.sessions
    pub owned :
        (imei : Bytes) (p : ℕ)
        → find_session imei s.sessions ≡ some p
        → imei_at p s.heap ≡ some imei
    pub unused : (p : ℕ) → s.next ≤ p → imei_at p s.heap ≡ none

  -- `t` has the map of `s`, and its sessions have the same IMEIs.
  pub record Keeps (s t : Server P) : Type 0 where
    pub same_map : t.sessions ≡ s.sessions
    pub same_next : t.next ≡ s.next
    pub same_reg : t.reg_enabled ≡ s.reg_enabled
    pub same_imeis : (p : ℕ) → imei_at p t.heap ≡ imei_at p s.heap

  pub Keeps-refl : (s : Server P) → Keeps s s
  Keeps-refl s = record {
    same_map = refl;
    same_next = refl;
    same_reg = refl;
    same_imeis = λ p. refl;
  }

  pub Keeps-trans : {s t u : Server P} → Keeps s t → Keeps t u → Keeps s u
  Keeps-trans a b = record {
    same_map = b.same_map ∙ a.same_map;
    same_next = b.same_next ∙ a.same_next;
    same_reg = b.same_reg ∙ a.same_reg;
    same_imeis = λ p. b.same_imeis p ∙ a.same_imeis p;
  }

  pub Keeps-IsWellFormed : {s t : Server P} → Keeps s t → IsWellFormed s → IsWellFormed t
  Keeps-IsWellFormed k v = record {
    keys = rw k.same_map v.keys;
    owned = λ imei p e. k.same_imeis p ∙ v.owned imei p (rw k.same_map at e);
    unused = λ p h. k.same_imeis p ∙ v.unused p (rw k.same_next at h);
  }

  pub imei_at-update :
      (p q : ℕ) (f : Session P → Session P) (h : List (ℕ × Session P))
      → ((x : Session P) → (f x).imei ≡ x.imei)
      → imei_at q (update P p f h) ≡ imei_at q h
  unfolding update deref
  imei_at-update p q f [] same = refl
  imei_at-update p q f ((r, x) ∷ h) same = ground (arith, same x, imei_at-update p q f h same)

  pub touch-Keeps : (now : Time) (p : Option ℕ) (s : Server P) → Keeps s (touch P now p s)
  unfolding touch
  touch-Keeps now none s = Keeps-refl s
  touch-Keeps now (some p) s = record {
    same_map = refl;
    same_next = refl;
    same_reg = refl;
    same_imeis = λ q. imei_at-update p q _ s.heap (λ x. refl);
  }

  pub mark_connected-Keeps : (p : ℕ) (s : Server P) → Keeps s (mark_connected P p s)
  unfolding mark_connected
  mark_connected-Keeps p s = record {
    same_map = refl;
    same_next = refl;
    same_reg = refl;
    same_imeis = λ q. imei_at-update p q _ s.heap (λ x. refl);
  }

  pub emit-Keeps : (o : Output P) (s : Server P) → Keeps s (emit P o s)
  unfolding emit
  emit-Keeps o s = record {
    same_map = refl;
    same_next = refl;
    same_reg = refl;
    same_imeis = λ p. refl;
  }

  pub start-Keeps : (t : Task P) (s : Server P) → Keeps s (start P t s)
  unfolding start
  start-Keeps t s = record {
    same_map = refl;
    same_next = refl;
    same_reg = refl;
    same_imeis = λ p. refl;
  }

  pub mark_found-Keeps : (p : Option ℕ) (s : Server P) → Keeps s (mark_found P p s)
  unfolding mark_found
  mark_found-Keeps none s = Keeps-refl s
  mark_found-Keeps (some p) s = mark_connected-Keeps p s

  -- A step under a test keeps what both of its branches keep.
  pub if-Keeps :
      (b : Bool) (s t u : Server P) → Keeps s t → Keeps s u → Keeps s (if b then t else u)
  if-Keeps true s t u x y = x
  if-Keeps false s t u x y = y

  -- The uplink and the goroutines leave the map alone.
  pub ensure-Keeps :
      (w : World P) (imei : Bytes) (s : Server P) → Keeps s (ensure_tb_connected P w imei s).1
  unfolding ensure_tb_connected
  ensure-Keeps w imei s = elim (Bool-cases (uplink_allowed P w imei s)) [
    | inr no_uplink ↦ rw no_uplink (Keeps-refl s)
    | inl allowed ↦
        rw allowed (elim (Bool-cases (is_tb_connected P (find_session imei s.sessions) s)) [
          | inl known ↦ rw known (Keeps-refl s)
          | inr fresh ↦ rw fresh (elim (Bool-cases (w.connect_ok imei)) [
            | inl connects ↦
                rw connects
                  (Keeps-trans (emit-Keeps (connect_device imei) s) (mark_found-Keeps _ _))
            | inr fails ↦ rw fails (emit-Keeps (connect_device imei) s)
          ])
        ])
  ]

  pub publish_if-Keeps :
      (b : Bool) (w : World P) (imei : Bytes) (ts : Time) (values : Telemetry P) (s : Server P)
      → Keeps s (publish_if P b w imei ts values s)
  unfolding publish_if
  publish_if-Keeps true w imei ts values s = emit-Keeps _ s
  publish_if-Keeps false w imei ts values s = Keeps-refl s

  pub publish-Keeps :
      (w : World P) (imei : Bytes) (ts : Time) (values : Telemetry P) (s : Server P)
      → Keeps s (publish P w imei ts values s)
  unfolding publish
  publish-Keeps w imei ts values s =
      let r = ensure_tb_connected P w imei s in
      if-Keeps (is_empty imei) s s (publish_if P r.0 w imei ts values r.1) (Keeps-refl s)
        (Keeps-trans (ensure-Keeps w imei s) (publish_if-Keeps r.0 w imei ts values r.1))

  pub connect_session-Keeps :
      (w : World P) (p : Option ℕ) (imei : Bytes) (s : Server P)
      → Keeps s (connect_session P w p imei s)
  unfolding connect_session
  connect_session-Keeps w none imei s = Keeps-refl s
  connect_session-Keeps w (some p) imei s =
      let asked = emit-Keeps (connect_device imei) s in
      if-Keeps (is_empty imei) s _ _ (Keeps-refl s) (
        if-Keeps (not (uplink_allowed P w imei s)) s _ _ (Keeps-refl s) (
          if-Keeps (not (w.connect_ok imei)) s _ _ asked
            (Keeps-trans asked (mark_connected-Keeps p _))))

  pub run_task-Keeps : (w : World P) (t : Task P) (s : Server P) → Keeps s (run_task P w t s)
  unfolding run_task
  run_task-Keeps w (maybe_connect_tb sess imei) s = connect_session-Keeps w sess imei s
  run_task-Keeps w (resolve_and_publish_lbs imei wl) s =
      elim (Option-cases (w.locate wl.wifi wl.cells)) [
        | inl nowhere ↦ rw nowhere (Keeps-refl s)
        | inr (l, e) ↦ rw e (publish-Keeps w imei wl.time (lbs_wifi l.latitude l.longitude) s)
      ]

  module _ (w : World P) (c : Conn) (s : Server P) where
    pub touched : Keeps s (touch P w.now c.sess s)
    touched = touch-Keeps w.now c.sess s

    pub iccid_parsed-Keeps :
        (r : Parsed Bytes) → Keeps s (iccid_parsed P w r c.imei (touch P w.now c.sess s))
    unfolding iccid_parsed
    iccid_parsed-Keeps (err e) = touched
    iccid_parsed-Keeps (ok id) = Keeps-trans touched (publish-Keeps w c.imei w.later (iccid id) _)

    pub gps_parsed-Keeps :
        (r : Parsed (Position P)) → Keeps s (gps_parsed P w r c.imei (touch P w.now c.sess s))
    unfolding gps_parsed
    gps_parsed-Keeps (err e) = touched
    gps_parsed-Keeps (ok p) = Keeps-trans touched (publish-Keeps w c.imei p.time (gps p) _)

    pub status_parsed-Keeps :
        (r : Parsed Status) → Keeps s (status_parsed P w r c.imei (touch P w.now c.sess s))
    unfolding status_parsed
    status_parsed-Keeps (err e) = touched
    status_parsed-Keeps (ok st) =
        if-Keeps _ s _ _ touched
          (Keeps-trans touched (publish-Keeps w c.imei w.later (battery st.battery_percent) _))

    pub wifi_lbs_parsed-Keeps :
        (r : Parsed (WifiLbs P)) → Keeps s (wifi_lbs_parsed P r c.imei (touch P w.now c.sess s))
    unfolding wifi_lbs_parsed
    wifi_lbs_parsed-Keeps (err e) = touched
    wifi_lbs_parsed-Keeps (ok wl) =
        if-Keeps _ s _ _ (Keeps-trans touched (start-Keeps (resolve_and_publish_lbs c.imei wl) _))
          touched

    pub ack_datetime-Keeps : (f : Frame) {t : Server P} → Keeps s t → Keeps s (ack_datetime P f c t)
    unfolding ack_datetime
    ack_datetime-Keeps f k = Keeps-trans k (emit-Keeps _ _)
