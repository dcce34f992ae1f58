-- ===== src/Server/Calls/Ready.antt =====
-- What a goroutine on the way to ThingsBoard knows, and that the others leave it true.
use mathlib.Core.List.{reverse}
use zx909_gw.Prelude.{
  ℕ, ◌≡◌, ◌∙◌, inl, inr, not, Option, none, some, ◌==◌, Bool-cases, Option-cases,
}
use zx909_gw.Bytes.{Bytes}
use zx909_gw.Platform.{Platform}
use zx909_gw.Server.State.{
  Server, maybe_connect_tb, Output, close, emit, deref, find_session, touch, mark_connected,
  remove_session, close_old, is_current,
}
use zx909_gw.Server.Keeps.{imei_at, touch-Keeps, mark_connected-Keeps}
use zx909_gw.Server.Introduced.{Asked, IsOwn, emit-Asked}
use zx909_gw.Server.Calls.{Pc, idle, publishes, connects, looks_up, checks, asks, marks, sends}

module _ (P : Platform) where
  open P use {Time}

  -- A goroutine has the session of its IMEI, and sends telemetry of a device that was asked for.
  abbrev pub IsReady : Server P → Pc P → Type 0
  IsReady s (connects p k) = IsOwn P s.heap (maybe_connect_tb p k)
  IsReady s (checks p k _ _) = imei_at P p s.heap ≡ some k
  IsReady s (asks p k _) = IsOwn P s.heap (maybe_connect_tb p k)
  IsReady s (marks p k _) = (imei_at P p s.heap ≡ some k) × Asked P k (reverse s.log)
  IsReady s (sends k _ _) = Asked P k (reverse s.log)
  IsReady s _ = Unit {0}

  -- Sessions keep their IMEIs, and what was asked for stays so.
  pub record Grows (s t : Server P) : Type 0 where
    pub same : (p : ℕ) (k : Bytes) → imei_at P p s.heap ≡ some k → imei_at P p t.heap ≡ some k
    pub more : (k : Bytes) → Asked P k (reverse s.log) → Asked P k (reverse t.log)

  pub Grows-refl : (s : Server P) → Grows s s
  Grows-refl s = record { same = λ p k e. e; more = λ k a. a }

  pub Grows-trans : {s t u : Server P} → Grows s t → Grows t u → Grows s u
  Grows-trans g h = record {
    same = λ p k e. h.same p k (g.same p k e);
    more = λ k a. h.more k (g.more k a);
  }

  pub IsReady-Grows : {s t : Server P} → Grows s t → (p : Pc P) → IsReady s p → IsReady t p
  IsReady-Grows g idle r = tt
  IsReady-Grows g (publishes _ _ _) r = tt
  IsReady-Grows g (looks_up _ _ _) r = tt
  IsReady-Grows g (connects none k) r = tt
  IsReady-Grows g (connects (some p) k) r = g.same p k r
  IsReady-Grows g (checks p k _ _) r = g.same p k r
  IsReady-Grows g (asks none k _) r = tt
  IsReady-Grows g (asks (some p) k _) r = g.same p k r
  IsReady-Grows g (marks p k _) r = (g.same p k r.0, g.more k r.1)
  IsReady-Grows g (sends k _ _) r = g.more k r

  pub emit-Grows : (o : Output P) (s : Server P) → Grows s (emit P o s)
  emit-Grows o s = record { same = λ p k e. unfold emit in e; more = λ k a. emit-Asked P k o s a }

  pub touch-Grows : (now : Time) (p : Option ℕ) (s : Server P) → Grows s (touch P now p s)
  unfolding touch
  touch-Grows now none s = Grows-refl s
  touch-Grows now (some p) s = record {
    same = λ q k e. (touch-Keeps P now (some p) s).same_imeis q ∙ e;
    more = λ k a. a;
  }

  pub mark_connected-Grows : (p : ℕ) (s : Server P) → Grows s (mark_connected P p s)
  mark_connected-Grows p s = record {
    same = λ q k e. (mark_connected-Keeps P p s).same_imeis q ∙ e;
    more = λ k a. unfold mark_connected in a;
  }

  pub remove_session-Grows :
      (imei : Bytes) (sess : Option ℕ) (s : Server P) → Grows s (remove_session P imei sess s)
  unfolding remove_session
  remove_session-Grows imei sess s =
      elim (Bool-cases (is_current P (find_session imei s.sessions) sess)) [
        | inl current ↦ rw current (record { same = λ p k e. e; more = λ k a. a })
        | inr stale ↦ rw stale (Grows-refl s)
      ]

  pub close_old-Grows : (p : Option ℕ) (conn : ℕ) (s : Server P) → Grows s (close_old P p conn s)
  unfolding close_old
  close_old-Grows none conn s = Grows-refl s
  close_old-Grows (some p) conn s = elim (Option-cases (deref P p s.heap)) [
    | inl gone ↦ rw (gone, close_old) (Grows-refl s)
    | inr (x, e) ↦ elim (Bool-cases (not (x.conn == conn))) [
      | inl other ↦ rw (e, close_old, other) (emit-Grows (close x.conn) s)
      | inr same ↦ rw (e, close_old, same) (Grows-refl s)
    ]
  ]
