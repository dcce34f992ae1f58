-- ===== src/Server/Introduced/Sessions.antt =====
-- Logins and the ends of sessions keep the order, and what the order says of a session.
use mathlib.Core.List.{reverse}
use zx909_gw.Prelude.{
  [], ◌++◌, ℕ, ◌≡◌, refl, ◌∙◌, inl, inr, true, false, not, List, ◌∷◌, Option, none, some, arith,
  if◌then◌else◌, ◌==◌, Bool-cases, Option-cases,
}
use zx909_gw.Bytes.{Bytes}
use zx909_gw.Platform.{Platform}
use zx909_gw.Server.State.{
  Server, Session, Task, maybe_connect_tb, resolve_and_publish_lbs, close, deref, find_session,
  is_tb_connected, is_current, register_session, remove_session, close_old,
}
use zx909_gw.Server.Effects.{All, All-map}
use zx909_gw.Server.Keeps.{imei_at}
use zx909_gw.Server.WellFormed.{
  register_session-IsWellFormed, remove_session-IsWellFormed, imei_at-fresh,
}
use zx909_gw.Server.Introduced.{
  Asked, IsOwn, IsIntroduced, marked_at, emit-IsIntroduced, if-IsIntroduced,
}

module _ (P : Platform) where
  open P use {Time}

  -- A session that is marked has its IMEI's connection asked for.
  pub marked-Asked :
      (imei : Bytes) (p : ℕ) (s : Server P)
      → imei_at P p s.heap ≡ some imei
      → is_tb_connected P (some p) s ≡ true
      → IsIntroduced P s
      → Asked P imei (reverse s.log)
  unfolding is_tb_connected
  marked-Asked imei p s owner e v = elim (Option-cases (deref P p s.heap)) [
    | inl gone ↦ absurd (ground arith)
    | inr (x, d) ↦
        let there : marked_at P p s.heap ≡ some imei = ground (arith, d, e, owner) in
        v.marked p imei there
  ]

  pub close_old-IsIntroduced :
      (p : Option ℕ) (conn : ℕ) (s : Server P)
      → IsIntroduced P s
      → IsIntroduced P (close_old P p conn s)
  unfolding close_old
  close_old-IsIntroduced none conn s v = v
  close_old-IsIntroduced (some p) conn s v = elim (Option-cases (deref P p s.heap)) [
    | inl gone ↦ rw (gone, close_old) v
    | inr (x, e) ↦
        rw (e, close_old)
          (if-IsIntroduced P (not (x.conn == conn)) _ s
            (λ f. emit-IsIntroduced P (close x.conn) s tt v) (λ f. v))
  ]

  -- A new session stands at a number that no goroutine has.
  IsOwn-fresh :
      (n : ℕ) (x : Session P) (h : List (ℕ × Session P)) (ts : List (Task P))
      → imei_at P n h ≡ none
      → All (IsOwn P h) ts
      → All (IsOwn P ((n, x) ∷ h)) ts
  IsOwn-fresh n x h ts unused = All-map (IsOwn P h) (IsOwn P ((n, x) ∷ h)) ts kept
    where
      kept : (t : Task P) → IsOwn P h t → IsOwn P ((n, x) ∷ h) t
      kept (maybe_connect_tb none k) o = tt
      kept (maybe_connect_tb (some p) k) o = elim (Bool-cases (n == p)) [
        | inl same ↦ absurd (ground arith)
        | inr other ↦ imei_at-fresh P n p x h ∙ rw other o
      ]
      kept (resolve_and_publish_lbs _ _) o = tt

  marked_at-fresh :
      (n q : ℕ) (x : Session P) (h : List (ℕ × Session P))
      → x.tb_connected ≡ false
      → marked_at P q ((n, x) ∷ h) ≡ (if n == q then none else marked_at P q h)
  unfolding deref
  marked_at-fresh n q x h e = ground arith

  pub register_session-IsIntroduced :
      (now later : Time) (imei : Bytes) (conn : ℕ) (remote : Bytes) (s : Server P)
      → IsIntroduced P s
      → (let r = register_session P now later imei conn remote s in
          IsIntroduced P r.1 × (imei_at P r.0 r.1.heap ≡ some imei))
  unfolding register_session deref
  register_session-IsIntroduced now later imei conn remote s v =
      let t = close_old P (find_session imei s.sessions) conn s in
      let u = close_old-IsIntroduced (find_session imei s.sessions) conn s v in
      let x : Session P = record {
        imei = imei;
        conn = conn;
        remote = remote;
        connected = now;
        last_seen = later;
        tb_connected = false;
      } in
      (
        record {
          well = register_session-IsWellFormed P now later imei conn remote s v.well;
          in_order = u.in_order;
          marked = λ q k e. elim (Bool-cases (t.next == q)) [
            | inl fresh ↦ absurd (ground (arith, marked_at-fresh t.next q x t.heap refl))
            | inr other ↦ u.marked q k (ground (arith, marked_at-fresh t.next q x t.heap refl))
          ];
          own = IsOwn-fresh t.next x t.heap t.tasks (u.well.unused t.next (omega arith)) u.own;
        },
        ground arith,
      )

  pub remove_session-IsIntroduced :
      (imei : Bytes) (sess : Option ℕ) (s : Server P)
      → IsIntroduced P s
      → IsIntroduced P (remove_session P imei sess s)
  unfolding remove_session
  remove_session-IsIntroduced imei sess s v =
      elim (Bool-cases (is_current P (find_session imei s.sessions) sess)) [
        | inr stale ↦ rw stale v
        | inl current ↦ rw current (record {
          well = rw current at (remove_session-IsWellFormed P imei sess s v.well);
          in_order = v.in_order;
          marked = v.marked;
          own = v.own;
        })
      ]

  pub started-IsOwn :
      (s : Server P) (t : Task P) (ts us : List (Task P))
      → s.tasks ≡ ts ++ (t ∷ us)
      → IsIntroduced P s
      → IsOwn P s.heap t
  started-IsOwn s t ts us e v = among ts (rw e at v.own)
    where
      among : (ts : List (Task P)) → All (IsOwn P s.heap) (ts ++ (t ∷ us)) → IsOwn P s.heap t
      among [] (o, rest) = o
      among (x ∷ ts) (o, rest) = among ts rest
