-- ===== src/Server/Trace/Turns.antt =====
-- What the server asks of ThingsBoard in a whole run, while the registry is on.
use zx909_gw.Prelude.{
  ℕ, ◌≡◌, refl, ap, sym, inl, inr, Bool, true, false, not, List, [], ◌∷◌, ◌++◌, Option, none, some,
  arith, if◌then◌else◌, append-nil, Option-cases,
}
use zx909_gw.Bytes.{Bytes}
use zx909_gw.Platform.{Platform}
use zx909_gw.Server.State.{
  Server, World, Task, maybe_connect_tb, resolve_and_publish_lbs, lbs_wifi, Output, write,
  connect_device, emit, find_session, deref, mark_connected,
}
use zx909_gw.Server.Uplink.{is_empty, uplink_allowed, connect_session, publish_located, run_task}
use zx909_gw.Server.Handle.{send_to_device}
use zx909_gw.Server.Effects.{All, Permitted, Logs, Logs-none, uplink_allowed-Allowed, publish-Logs}
use zx909_gw.Server.Keeps.{run_task-Keeps}
use zx909_gw.Server.Trace.{
  Turn, frames, hangs_up, runs, sends, Run, done, turn, IsClear, IsTraced, Logs-IsTraced,
  frames-IsTraced, emit-IsTraced, hang_up-IsTraced,
}
use zx909_gw.Server.WellFormed.Reach.{new_server}

module _ (P : Platform) (Known : Bytes → Type 0) where
  -- A test whose branches are both as claimed where they are taken.
  if-Logs :
      {Q : Output P → Type 0} {rs : List (Output P)} (b : Bool) (s t u : Server P)
      → (b ≡ true → Logs P Q rs s t)
      → (b ≡ false → Logs P Q rs s u)
      → Logs P Q rs s (if b then t else u)
  if-Logs true s t u h k = h refl
  if-Logs false s t u h k = k refl

  connect_session-Logs :
      (w : World P) (sess : Option ℕ) (imei : Bytes) (s : Server P)
      → Logs P (Permitted P w s.reg_enabled imei 0) [] s (connect_session P w sess imei s)
  unfolding connect_session emit mark_connected
  connect_session-Logs w none imei s = Logs-none P s s refl
  connect_session-Logs w (some p) imei s =
      let asked = emit P (connect_device imei) s in
      let logged = ap (λ os. s.log ++ os) (sym (append-nil (connect_device imei ∷ []))) in
      if-Logs (is_empty imei) s s _ (λ e. Logs-none P s s refl)
        (λ named.
          if-Logs (not (uplink_allowed P w imei s)) s s _ (λ e. Logs-none P s s refl)
            (λ granted.
              let permitted = uplink_allowed-Allowed P w imei s (ground arith) in
              if-Logs (not (w.connect_ok imei)) s asked (mark_connected P p asked)
                (λ e. record {
                  before = connect_device imei ∷ [];
                  logs = logged;
                  kind = ((refl, permitted), tt);
                })
                (λ e. record {
                  before = connect_device imei ∷ [];
                  logs = logged;
                  kind = ((refl, permitted), tt);
                })))

  run_task-Logs :
      (w : World P) (t : Task P) (s : Server P)
      → (imei : Bytes) × Logs P (Permitted P w s.reg_enabled imei 0) [] s (run_task P w t s)
  unfolding run_task publish_located
  run_task-Logs w (maybe_connect_tb sess imei) s = (imei, connect_session-Logs w sess imei s)
  run_task-Logs w (resolve_and_publish_lbs imei wl) s =
      elim (Option-cases (w.locate wl.wifi wl.cells)) [
        | inl nowhere ↦ (imei, rw nowhere (Logs-none P s s refl))
        | inr (x, e) ↦
            (imei, rw e (publish-Logs P w imei 0 wl.time (lbs_wifi x.latitude x.longitude) s))
      ]

  send_to_device-IsTraced :
      (w : World P) (imei payload : Bytes) (s : Server P)
      → IsTraced P Known s
      → IsTraced P Known (send_to_device P w imei payload s).1
  unfolding send_to_device
  send_to_device-IsTraced w imei payload s v = elim (Option-cases (find_session imei s.sessions)) [
    | inl offline ↦ rw (offline, send_to_device) v
    | inr (p, e) ↦ elim (Option-cases (deref P p s.heap)) [
      | inl gone ↦ rw (e, gone, send_to_device) v
      | inr (x, d) ↦ rw (e, d, send_to_device) (emit-IsTraced P Known (write x.conn payload) s tt v)
    ]
  ]

  Turn-IsTraced : {s t : Server P} → Turn P Known s t → IsTraced P Known s → IsTraced P Known t
  Turn-IsTraced {s} (frames w f c honest) v = frames-IsTraced P Known w f c s honest v
  Turn-IsTraced {s} (hangs_up c) v = hang_up-IsTraced P Known c s v
  Turn-IsTraced {s} (runs w t honest) v =
      let (imei, l) = run_task-Logs w t s in
      Logs-IsTraced P Known w imei 0 [] honest l tt (run_task-Keeps P w t s).same_reg v
  Turn-IsTraced {s} (sends w imei payload) v = send_to_device-IsTraced w imei payload s v

  Run-IsTraced : {s t : Server P} → Run P Known s t → IsTraced P Known s → IsTraced P Known t
  Run-IsTraced done v = v
  Run-IsTraced (turn r t) v = Turn-IsTraced t (Run-IsTraced r v)

  -- In every run of a new server whose registry is on (frames on any connection, ends of connections,
  -- goroutines and commands in any order), if in each step the registry says yes only to IMEIs that
  -- are known, then every device that ThingsBoard was asked to connect or to take telemetry for has a
  -- known IMEI that is not empty.
  pub Run-IsClear :
      (geo_enabled : Bool) {t : Server P}
      → Run P Known (new_server P true geo_enabled) t
      → All (IsClear P Known) t.log
  Run-IsClear geo_enabled r = (Run-IsTraced r (record { registry_on = refl; clear = tt })).clear
