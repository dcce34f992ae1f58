-- ===== src/Server/Calls/Ordered.antt =====
-- ThingsBoard hears of a device's connection before its telemetry, however the goroutines interleave.
use mathlib.Core.List.{reverse}
use zx909_gw.Prelude.{update, ℕ, ◌≡◌, refl, inl, inr, Bool, Option, none, some, ◌==◌, Bool-cases}
use zx909_gw.Bytes.{Bytes}
use zx909_gw.Platform.{Platform}
use zx909_gw.Server.State.{
  Server, World, maybe_connect_tb, Telemetry, connect_device, emit, deref, find_session,
  is_tb_connected, mark_connected,
}
use zx909_gw.Server.Uplink.{is_empty, uplink_allowed}
use zx909_gw.Server.WellFormed.Reach.{Reach-IsWellFormed, here}
use zx909_gw.Server.Introduced.{
  Asked, InOrder, IsIntroduced, emit-asks, emit-IsIntroduced, mark_connected-IsIntroduced,
}
use zx909_gw.Server.Introduced.Sessions.{marked-Asked}
use zx909_gw.Server.Introduced.Sessions.{started-IsOwn}
use zx909_gw.Server.Calls.{
  Pc, idle, publishes, connects, looks_up, checks, asks, marks, sends, looked_up, connected, asked,
  begins, advance,
}
use zx909_gw.Server.Calls.System.{
  System, Step, elsewhere, calls, runs, advances, Reach, stays, steps, new_system,
}
use zx909_gw.Server.Calls.Ready.{
  IsReady, Grows-refl, IsReady-Grows, emit-Grows, mark_connected-Grows,
}
use zx909_gw.Server.Calls.Sections.{Advances, emit-Advances, Section-Advances}

module _ (P : Platform) where
  open P use {Time}

  begins-IsReady :
      (w : World P) (imei : Bytes) (p : Pc P) (s : Server P)
      → IsReady P s p
      → IsReady P s (begins P w imei p s)
  unfolding begins
  begins-IsReady w imei p s r = elim (Bool-cases (uplink_allowed P w imei s)) [
    | inl allowed ↦ elim (Bool-cases (is_empty imei)) [
      | inl empty ↦ rw (allowed, empty) tt
      | inr named ↦ rw (allowed, named) r
    ]
    | inr refused ↦ elim (Bool-cases (is_empty imei)) [
      | inl empty ↦ rw (refused, empty) tt
      | inr named ↦ rw (refused, named) tt
    ]
  ]

  connected-IsReady :
      (imei : Bytes) (rest : Option (Time × Telemetry P)) (s : Server P)
      → Asked P imei (reverse s.log)
      → IsReady P s (connected P imei rest)
  unfolding connected
  connected-IsReady imei none s a = tt
  connected-IsReady imei (some (ts, values)) s a = a

  asked-IsReady :
      (p : Option ℕ) (imei : Bytes) (rest : Option (Time × Telemetry P)) (s : Server P)
      → IsReady P s (asks p imei rest)
      → Asked P imei (reverse s.log)
      → IsReady P s (asked P p imei rest)
  unfolding asked
  asked-IsReady none imei rest s r a = connected-IsReady imei rest s a
  asked-IsReady (some p) imei rest s r a = (r, a)

  looked_up-IsReady :
      (imei : Bytes) (ts : Time) (values : Telemetry P) (p : Option ℕ) (s : Server P)
      → find_session imei s.sessions ≡ p
      → IsIntroduced P s
      → IsReady P s (looked_up P imei ts values p)
  unfolding looked_up
  looked_up-IsReady imei ts values none s found v = tt
  looked_up-IsReady imei ts values (some p) s found v = v.well.owned imei p found

  advance-Advances :
      (w : World P) (p : Pc P) (s : Server P)
      → IsReady P s p
      → IsIntroduced P s
      → Advances P s (advance P w p s).1
  unfolding advance
  advance-Advances w idle s r v = record { ordered = v; grows = Grows-refl P s }
  advance-Advances w (publishes _ _ _) s r v = record { ordered = v; grows = Grows-refl P s }
  advance-Advances w (connects none _) s r v = record { ordered = v; grows = Grows-refl P s }
  advance-Advances w (connects (some _) _) s r v = record { ordered = v; grows = Grows-refl P s }
  advance-Advances w (looks_up _ _ _) s r v = record { ordered = v; grows = Grows-refl P s }
  advance-Advances w (checks _ _ _ _) s r v = record { ordered = v; grows = Grows-refl P s }
  advance-Advances w (asks p imei rest) s r v =
      emit-Advances P (connect_device imei) s (emit-IsIntroduced P (connect_device imei) s tt v)
  advance-Advances w (marks p imei rest) s r v = record {
    ordered = mark_connected-IsIntroduced P p imei s r.0 r.1 v;
    grows = mark_connected-Grows P p s;
  }
  advance-Advances w (sends imei ts values) s r v =
      emit-Advances P _ s (emit-IsIntroduced P _ s r v)

  advance-IsReady :
      (w : World P) (p : Pc P) (s : Server P)
      → IsReady P s p
      → IsIntroduced P s
      → IsReady P (advance P w p s).1 (advance P w p s).0
  unfolding advance
  advance-IsReady w idle s r v = tt
  advance-IsReady w (publishes imei ts values) s r v =
      begins-IsReady w imei (looks_up imei ts values) s tt
  advance-IsReady w (connects none _) s r v = tt
  advance-IsReady w (connects (some p) imei) s r v =
      begins-IsReady w imei (asks (some p) imei none) s r
  advance-IsReady w (looks_up imei ts values) s r v =
      looked_up-IsReady imei ts values (find_session imei s.sessions) s refl v
  advance-IsReady w (checks p imei ts values) s r v =
      elim (Bool-cases (is_tb_connected P (some p) s)) [
        | inl known ↦ rw known (marked-Asked P imei p s r known v)
        | inr fresh ↦ rw fresh r
      ]
  advance-IsReady w (asks p imei rest) s r v = elim (Bool-cases (w.connect_ok imei)) [
    | inl succeeds ↦ rw succeeds (
        asked-IsReady p imei rest (emit P (connect_device imei) s)
          (IsReady-Grows P (emit-Grows P (connect_device imei) s) (asks p imei rest) r)
          (emit-asks P imei s))
    | inr fails ↦ rw fails tt
  ]
  advance-IsReady w (marks p imei rest) s r v =
      connected-IsReady imei rest (mark_connected P p s)
        ((mark_connected-Grows P p s).more imei r.1)
  advance-IsReady w (sends imei ts values) s r v = tt

  record IsOrderly (y : System P) : Type 0 where
    ordered : IsIntroduced P y.server
    ready : (i : ℕ) → IsReady P y.server (y.pc i)

  update-IsReady :
      (s : Server P) (pc : ℕ → Pc P) (i : ℕ) (p : Pc P)
      → ((j : ℕ) → IsReady P s (pc j))
      → IsReady P s p
      → (j : ℕ) → IsReady P s (update pc i p j)
  update-IsReady s pc i p all r j = elim (Bool-cases (i == j)) [
    | inl same ↦ rw same r
    | inr other ↦ rw other (all j)
  ]

  Step-IsOrderly : {y z : System P} → Step P y z → IsOrderly y → IsOrderly z
  Step-IsOrderly {y} (elsewhere sec) h =
      let a = Section-Advances P sec h.ordered in
      record { ordered = a.ordered; ready = λ i. IsReady-Grows P a.grows (y.pc i) (h.ready i) }
  Step-IsOrderly {y} (calls i imei ts values e) h = record {
    ordered = h.ordered;
    ready = update-IsReady y.server y.pc i (publishes imei ts values) h.ready tt;
  }
  Step-IsOrderly {y} (runs i sess imei ts us e started) h = record {
    ordered = h.ordered;
    ready =
        update-IsReady y.server y.pc i (connects sess imei) h.ready
          (started-IsOwn P y.server (maybe_connect_tb sess imei) ts us started h.ordered);
  }
  Step-IsOrderly {y} (advances w i) h =
      let a = advance-Advances w (y.pc i) y.server (h.ready i) h.ordered in
      record {
        ordered = a.ordered;
        ready =
            update-IsReady (advance P w (y.pc i) y.server).1 y.pc i
              (advance P w (y.pc i) y.server).0 (λ j. IsReady-Grows P a.grows (y.pc j) (h.ready j))
              (advance-IsReady w (y.pc i) y.server (h.ready i) h.ordered);
      }

  Reach-IsOrderly : {y z : System P} → Reach P y z → IsOrderly y → IsOrderly z
  Reach-IsOrderly stays h = h
  Reach-IsOrderly (steps r st) h = Step-IsOrderly st (Reach-IsOrderly r h)

  -- In every interleaving of any number of goroutines from a new server on (publications and
  -- `maybeConnectTB` taken one section or request at a time, logins, ends of connections and the rest in
  -- between, with any answers of the environment), each telemetry message of a device comes after a
  -- request to ThingsBoard to connect that device.
  pub interleaved-InOrder :
      (reg_enabled geo_enabled : Bool) {y : System P}
      → Reach P (new_system P reg_enabled geo_enabled) y
      → InOrder P (reverse y.server.log)
  unfolding deref
  interleaved-InOrder reg_enabled geo_enabled r = (Reach-IsOrderly r new).ordered.in_order
    where
      new : IsOrderly (new_system P reg_enabled geo_enabled)
      new = record {
        ordered = record {
          well = Reach-IsWellFormed P reg_enabled geo_enabled here;
          in_order = tt;
          marked = λ p k e. absurd (cc);
          own = tt;
        };
        ready = λ i. tt;
      }
