-- ===== src/Server/Calls/Vouched.antt =====
-- Only devices that the registry vouches for reach ThingsBoard, however the goroutines interleave.
use zx909_gw.Prelude.{
  update, ℕ, ◌≡◌, refl, inl, inr, Bool, true, false, not, Option, none, some, ◌==◌, Bool-cases,
  Option-cases,
}
use zx909_gw.Bytes.{Bytes}
use zx909_gw.Platform.{Platform}
use zx909_gw.Server.State.{
  Server, World, Task, resolve_and_publish_lbs, Telemetry, write, close, connect_device,
  disconnect_device, deref, find_session, touch, is_tb_connected, mark_connected, register_session,
  close_old,
}
use zx909_gw.Server.Uplink.{is_empty, uplink_allowed}
use zx909_gw.Server.Handle.{start}
use zx909_gw.Server.Effects.{All, uplink_allowed-Allowed}
use zx909_gw.Server.Trace.{
  Honest, IsClear, IsTraced, emit-IsTraced, if-IsTraced, remove_session-IsTraced, Allowed-Known,
}
use zx909_gw.Server.Calls.{
  Pc, idle, publishes, connects, looks_up, checks, asks, marks, sends, looked_up, connected, asked,
  begins, advance,
}
use zx909_gw.Server.Calls.System.{
  log_in, Section, touches, writes, closes, reports, registers, removes, resolves, System,
  elsewhere, calls, runs, advances, Reach, stays, steps, new_system,
}

module _ (P : Platform) (Known : Bytes → Type 0) where
  open P use {Time}

  -- A goroutine that is past `uplinkAllowed` has an IMEI that is known and not empty.
  abbrev IsVouched : Pc P → Type 0
  IsVouched idle = Unit {0}
  IsVouched (publishes _ _ _) = Unit {0}
  IsVouched (connects _ _) = Unit {0}
  IsVouched (looks_up k _ _) = (is_empty k ≡ false) × Known k
  IsVouched (checks _ k _ _) = (is_empty k ≡ false) × Known k
  IsVouched (asks _ k _) = (is_empty k ≡ false) × Known k
  IsVouched (marks _ k _) = (is_empty k ≡ false) × Known k
  IsVouched (sends k _ _) = (is_empty k ≡ false) × Known k

  -- In each step of the run the registry says yes only to IMEIs that are known.
  abbrev pub IsHonest : {y z : System P} → Reach P y z → Type 0
  IsHonest stays = Unit {0}
  IsHonest (steps r (elsewhere _)) = IsHonest r
  IsHonest (steps r (calls _ _ _ _ _)) = IsHonest r
  IsHonest (steps r (runs _ _ _ _ _ _ _)) = IsHonest r
  IsHonest (steps r (advances w _)) = IsHonest r × Honest P Known w

  start-IsTraced : (t : Task P) (s : Server P) → IsTraced P Known s → IsTraced P Known (start P t s)
  unfolding start
  start-IsTraced t s v = record { registry_on = v.registry_on; clear = v.clear }

  touch-IsTraced :
      (now : Time) (p : Option ℕ) (s : Server P)
      → IsTraced P Known s
      → IsTraced P Known (touch P now p s)
  unfolding touch
  touch-IsTraced now none s v = v
  touch-IsTraced now (some p) s v = record { registry_on = v.registry_on; clear = v.clear }

  close_old-IsTraced :
      (p : Option ℕ) (conn : ℕ) (s : Server P)
      → IsTraced P Known s
      → IsTraced P Known (close_old P p conn s)
  unfolding close_old
  close_old-IsTraced none conn s v = v
  close_old-IsTraced (some p) conn s v = elim (Option-cases (deref P p s.heap)) [
    | inl gone ↦ rw (gone, close_old) v
    | inr (x, e) ↦
        rw (e, close_old)
          (if-IsTraced P Known (not (x.conn == conn)) _ s
            (emit-IsTraced P Known (close x.conn) s tt v) v)
  ]

  log_in-IsTraced :
      (now later : Time) (imei : Bytes) (conn : ℕ) (remote : Bytes) (s : Server P)
      → IsTraced P Known s
      → IsTraced P Known (log_in P now later imei conn remote s)
  unfolding log_in register_session start
  log_in-IsTraced now later imei conn remote s v =
      let u = close_old-IsTraced (find_session imei s.sessions) conn s v in
      record { registry_on = u.registry_on; clear = u.clear }

  Section-IsTraced : {s t : Server P} → Section P s t → IsTraced P Known s → IsTraced P Known t
  Section-IsTraced {s} (touches now p) v = touch-IsTraced now p s v
  Section-IsTraced {s} (writes conn bytes) v = emit-IsTraced P Known (write conn bytes) s tt v
  Section-IsTraced {s} (closes conn) v = emit-IsTraced P Known (close conn) s tt v
  Section-IsTraced {s} (reports imei) v = emit-IsTraced P Known (disconnect_device imei) s tt v
  Section-IsTraced {s} (registers now later imei conn remote) v =
      log_in-IsTraced now later imei conn remote s v
  Section-IsTraced {s} (removes imei sess) v = remove_session-IsTraced P Known imei sess s v
  Section-IsTraced {s} (resolves imei wl) v = start-IsTraced (resolve_and_publish_lbs imei wl) s v

  advance-IsTraced :
      (w : World P) (p : Pc P) (s : Server P)
      → IsVouched p
      → IsTraced P Known s
      → IsTraced P Known (advance P w p s).1
  unfolding advance mark_connected
  advance-IsTraced w idle s r v = v
  advance-IsTraced w (publishes _ _ _) s r v = v
  advance-IsTraced w (connects none _) s r v = v
  advance-IsTraced w (connects (some _) _) s r v = v
  advance-IsTraced w (looks_up _ _ _) s r v = v
  advance-IsTraced w (checks _ _ _ _) s r v = v
  advance-IsTraced w (asks p imei rest) s r v = emit-IsTraced P Known (connect_device imei) s r v
  advance-IsTraced w (marks p imei rest) s r v = record {
    registry_on = v.registry_on;
    clear = v.clear;
  }
  advance-IsTraced w (sends imei ts values) s r v = emit-IsTraced P Known _ s r v

  begins-IsVouched :
      (w : World P) (imei : Bytes) (p : Pc P) (s : Server P)
      → Honest P Known w
      → s.reg_enabled ≡ true
      → ((is_empty imei ≡ false) × Known imei → IsVouched p)
      → IsVouched (begins P w imei p s)
  unfolding begins
  begins-IsVouched w imei p s honest on h = elim (Bool-cases (uplink_allowed P w imei s)) [
    | inl allowed ↦ elim (Bool-cases (is_empty imei)) [
      | inl empty ↦ rw (allowed, empty) tt
      | inr named ↦
          let granted = rw on at (uplink_allowed-Allowed P w imei s allowed) in
          rw (allowed, named) (h (Allowed-Known P Known w imei honest granted))
    ]
    | inr refused ↦ elim (Bool-cases (is_empty imei)) [
      | inl empty ↦ rw (refused, empty) tt
      | inr named ↦ rw (refused, named) tt
    ]
  ]

  connected-IsVouched :
      (imei : Bytes) (rest : Option (Time × Telemetry P))
      → (is_empty imei ≡ false) × Known imei
      → IsVouched (connected P imei rest)
  unfolding connected
  connected-IsVouched imei none r = tt
  connected-IsVouched imei (some (ts, values)) r = r

  asked-IsVouched :
      (p : Option ℕ) (imei : Bytes) (rest : Option (Time × Telemetry P))
      → (is_empty imei ≡ false) × Known imei
      → IsVouched (asked P p imei rest)
  unfolding asked
  asked-IsVouched none imei rest r = connected-IsVouched imei rest r
  asked-IsVouched (some p) imei rest r = r

  looked_up-IsVouched :
      (imei : Bytes) (ts : Time) (values : Telemetry P) (p : Option ℕ)
      → (is_empty imei ≡ false) × Known imei
      → IsVouched (looked_up P imei ts values p)
  unfolding looked_up
  looked_up-IsVouched imei ts values none r = r
  looked_up-IsVouched imei ts values (some p) r = r

  advance-IsVouched :
      (w : World P) (p : Pc P) (s : Server P)
      → Honest P Known w
      → s.reg_enabled ≡ true
      → IsVouched p
      → IsVouched (advance P w p s).0
  unfolding advance
  advance-IsVouched w idle s honest on r = tt
  advance-IsVouched w (publishes imei ts values) s honest on r =
      begins-IsVouched w imei (looks_up imei ts values) s honest on (λ k. k)
  advance-IsVouched w (connects none _) s honest on r = tt
  advance-IsVouched w (connects (some p) imei) s honest on r =
      begins-IsVouched w imei (asks (some p) imei none) s honest on (λ k. k)
  advance-IsVouched w (looks_up imei ts values) s honest on r =
      looked_up-IsVouched imei ts values (find_session imei s.sessions) r
  advance-IsVouched w (checks p imei ts values) s honest on r =
      elim (Bool-cases (is_tb_connected P (some p) s)) [
        | inl known ↦ rw known r
        | inr fresh ↦ rw fresh r
      ]
  advance-IsVouched w (asks p imei rest) s honest on r = elim (Bool-cases (w.connect_ok imei)) [
    | inl succeeds ↦ rw succeeds (asked-IsVouched p imei rest r)
    | inr fails ↦ rw fails tt
  ]
  advance-IsVouched w (marks p imei rest) s honest on r = connected-IsVouched imei rest r
  advance-IsVouched w (sends imei ts values) s honest on r = tt

  record AreVouched (y : System P) : Type 0 where
    traced : IsTraced P Known y.server
    vouched : (i : ℕ) → IsVouched (y.pc i)

  update-IsVouched :
      (pc : ℕ → Pc P) (i : ℕ) (p : Pc P)
      → ((j : ℕ) → IsVouched (pc j))
      → IsVouched p
      → (j : ℕ) → IsVouched (update pc i p j)
  update-IsVouched pc i p all r j = elim (Bool-cases (i == j)) [
    | inl same ↦ rw same r
    | inr other ↦ rw other (all j)
  ]

  Reach-AreVouched : {y z : System P} (r : Reach P y z) → IsHonest r → AreVouched y → AreVouched z
  Reach-AreVouched stays honest h = h
  Reach-AreVouched (steps r (elsewhere sec)) honest h =
      let k = Reach-AreVouched r honest h in
      record { traced = Section-IsTraced sec k.traced; vouched = k.vouched }
  Reach-AreVouched (steps {z} r (calls i imei ts values e)) honest h =
      let k = Reach-AreVouched r honest h in
      record {
        traced = k.traced;
        vouched = update-IsVouched z.pc i (publishes imei ts values) k.vouched tt;
      }
  Reach-AreVouched (steps {z} r (runs i sess imei ts us e started)) honest h =
      let k = Reach-AreVouched r honest h in
      record {
        traced = k.traced;
        vouched = update-IsVouched z.pc i (connects sess imei) k.vouched tt;
      }
  Reach-AreVouched (steps {z} r (advances w i)) (before, honest) h =
      let k = Reach-AreVouched r before h in
      record {
        traced = advance-IsTraced w (z.pc i) z.server (k.vouched i) k.traced;
        vouched =
            update-IsVouched z.pc i (advance P w (z.pc i) z.server).0 k.vouched
              (advance-IsVouched w (z.pc i) z.server honest k.traced.registry_on (k.vouched i));
      }

  -- In every interleaving of the goroutines of a new server whose registry is on, if in each step the
  -- registry says yes only to IMEIs that are known, then every device that ThingsBoard was asked to
  -- connect or to take telemetry for has a known IMEI that is not empty.
  pub interleaved-IsClear :
      (geo_enabled : Bool) {y : System P} (r : Reach P (new_system P true geo_enabled) y)
      → IsHonest r
      → All (IsClear P Known) y.server.log
  interleaved-IsClear geo_enabled r honest =
      (Reach-AreVouched r honest (record {
        traced = record { registry_on = refl; clear = tt };
        vouched = λ i. tt;
      })).traced.clear
