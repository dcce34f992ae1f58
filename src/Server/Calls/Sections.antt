-- ===== src/Server/Calls/Sections.antt =====
-- Every section of the server keeps the order, and what the goroutines know.
use zx909_gw.Prelude.{ℕ, ◌∙◌, inl, inr, some, arith, ◌==◌, Bool-cases}
use zx909_gw.Bytes.{Bytes}
use zx909_gw.Platform.{Platform}
use zx909_gw.Server.State.{
  Server, Task, maybe_connect_tb, resolve_and_publish_lbs, Output, write, close, disconnect_device,
  emit, find_session, register_session, close_old,
}
use zx909_gw.Server.Handle.{start}
use zx909_gw.Server.WellFormed.{imei_at-fresh}
use zx909_gw.Server.Introduced.{
  IsIntroduced, emit-IsIntroduced, touch-IsIntroduced, start-IsIntroduced,
}
use zx909_gw.Server.Introduced.Sessions.{
  close_old-IsIntroduced, register_session-IsIntroduced, remove_session-IsIntroduced,
}
use zx909_gw.Server.Calls.System.{
  log_in, Section, touches, writes, closes, reports, registers, removes, resolves,
}
use zx909_gw.Server.Calls.Ready.{
  Grows, Grows-trans, emit-Grows, touch-Grows, remove_session-Grows, close_old-Grows,
}

module _ (P : Platform) where
  open P use {Time}

  register_session-Grows :
      (now later : Time) (imei : Bytes) (conn : ℕ) (remote : Bytes) (s : Server P)
      → IsIntroduced P s
      → Grows P s (register_session P now later imei conn remote s).1
  unfolding register_session
  register_session-Grows now later imei conn remote s v =
      let old = find_session imei s.sessions in
      let t = close_old P old conn s in
      let free = (close_old-IsIntroduced P old conn s v).well.unused t.next (omega arith) in
      Grows-trans P (close_old-Grows P old conn s) (record {
        same = λ p k e. elim (Bool-cases (t.next == p)) [
          | inl fresh ↦ absurd (ground arith)
          | inr other ↦ imei_at-fresh P t.next p _ t.heap ∙ rw other e
        ];
        more = λ k a. a;
      })

  -- The order is kept, and so is what the other goroutines know.
  pub record Advances (s t : Server P) : Type 0 where
    pub ordered : IsIntroduced P t
    pub grows : Grows P s t

  pub emit-Advances :
      (o : Output P) (s : Server P) → IsIntroduced P (emit P o s) → Advances s (emit P o s)
  emit-Advances o s v = record { ordered = v; grows = emit-Grows P o s }

  start-Grows : (t : Task P) (s : Server P) → Grows P s (start P t s)
  unfolding start
  start-Grows t s = record { same = λ p k e. e; more = λ k a. a }

  log_in-Advances :
      (now later : Time) (imei : Bytes) (conn : ℕ) (remote : Bytes) (s : Server P)
      → IsIntroduced P s
      → Advances s (log_in P now later imei conn remote s)
  unfolding log_in
  log_in-Advances now later imei conn remote s v =
      let r = register_session P now later imei conn remote s in
      let u = register_session-IsIntroduced P now later imei conn remote s v in
      record {
        ordered = start-IsIntroduced P (maybe_connect_tb (some r.0) imei) r.1 u.1 u.0;
        grows =
            Grows-trans P (register_session-Grows now later imei conn remote s v)
              (start-Grows (maybe_connect_tb (some r.0) imei) r.1);
      }

  pub Section-Advances : {s t : Server P} → Section P s t → IsIntroduced P s → Advances s t
  Section-Advances {s} (touches now p) v = record {
    ordered = touch-IsIntroduced P now p s v;
    grows = touch-Grows P now p s;
  }
  Section-Advances {s} (writes conn bytes) v =
      emit-Advances (write conn bytes) s (emit-IsIntroduced P (write conn bytes) s tt v)
  Section-Advances {s} (closes conn) v =
      emit-Advances (close conn) s (emit-IsIntroduced P (close conn) s tt v)
  Section-Advances {s} (reports imei) v =
      emit-Advances (disconnect_device imei) s (emit-IsIntroduced P (disconnect_device imei) s tt v)
  Section-Advances {s} (registers now later imei conn remote) v =
      log_in-Advances now later imei conn remote s v
  Section-Advances {s} (removes imei sess) v = record {
    ordered = remove_session-IsIntroduced P imei sess s v;
    grows = remove_session-Grows P imei sess s;
  }
  Section-Advances {s} (resolves imei wl) v = record {
    ordered = start-IsIntroduced P (resolve_and_publish_lbs imei wl) s tt v;
    grows = start-Grows (resolve_and_publish_lbs imei wl) s;
  }
