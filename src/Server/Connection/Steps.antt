-- ===== src/Server/Connection/Steps.antt =====
-- A connection as a sequence of the server's steps.
use mathlib.Core.Path.{subst}
use zx909_gw.Prelude.{
  ℕ, zero, suc, ◌+◌, ◌≡◌, refl, ap, ◌∙◌, sym, List, [], ◌∷◌, ◌++◌, some, arith, length, drop,
}
use zx909_gw.Bytes.{Bytes}
use zx909_gw.Platform.{Platform}
use zx909_gw.Server.State.{Server, World}
use zx909_gw.Server.Handle.{Conn, hang_up, handle_frame}
use zx909_gw.Server.Drain.{Drained, resync, drain_frames, receive}
use zx909_gw.Server.Drain.Total.{
  stops, skips, takes, round, drain_frames-stops, drain_frames-takes, drain_frames-skips,
}
use zx909_gw.Server.Drain.Total.{drain_frames-Finishes}
use zx909_gw.Server.WellFormed.Reach.{Reach, here, next, frames}
use zx909_gw.Server.Connection.{Surroundings, new_conn, receive_all, ended, handle_conn}

module _ (P : Platform) where
  Reach-trans : {s t u : Server P} → Reach P s t → Reach P t u → Reach P s u
  Reach-trans r here = r
  Reach-trans r (next q st) = next (Reach-trans r q) st

  -- The result of the inner loop is reached by handling frames.
  drain_frames-Reach :
      (fuel : ℕ) (ws : ℕ → World P) (i : ℕ) (buf : Bytes) (c : Conn) (s : Server P) (d : Drained P)
      → drain_frames P fuel ws i buf c s ≡ some d
      → Reach P s d.server
  drain_frames-Reach zero ws i buf c s d e = absurd (unfold drain_frames in cc e)
  drain_frames-Reach (suc fuel) ws i buf c s d e = elim (round buf) [
    | stops n x ↦
        let same : s ≡ d.server = cc (e, drain_frames-stops P fuel ws i buf c s n x) in
        subst (Reach P s) same here
    | skips err n x other ↦
        drain_frames-Reach fuel ws (i + 1) (resync n buf) c s d
          (sym (drain_frames-skips P fuel ws i buf c s err n x other) ∙ e)
    | takes f n x ↦
        let r = handle_frame P (ws i) f c s in
        Reach-trans (next here (frames (ws i) f c)) (
          drain_frames-Reach fuel ws (i + 1) (drop n buf) r.0 r.1 d
            (sym (drain_frames-takes P fuel ws i buf c s f n x) ∙ e))
  ]

  receive-Reach :
      (ws : ℕ → World P) (input : Bytes) (c : Conn) (s : Server P)
      → (c' : Conn) × (s' : Server P) × (receive P ws input c s ≡ some (c', s')) × Reach P s s'
  unfolding receive
  receive-Reach ws input c s =
      let buf = c.buf ++ input in
      let r = drain_frames-Finishes P (suc (length buf)) ws 0 buf c s (omega arith) in
      (
        record r.result.conn { buf = r.result.rest },
        r.result.server,
        rw (r.finishes, receive),
        drain_frames-Reach (suc (length buf)) ws 0 buf c s r.result r.finishes,
      )

  module _ (e : Surroundings P) (apart : (i : ℕ) (s : Server P) → Reach P s (e.others i s)) where
    receive_all-Reach :
        (i : ℕ) (inputs : List Bytes) (c : Conn) (s : Server P)
        → (c' : Conn) × (s' : Server P) × (receive_all P e i inputs c s ≡ some (c', s'))
          × Reach P s s'
    unfolding receive_all
    receive_all-Reach i [] c s = (c, e.others i s, refl, apart i s)
    receive_all-Reach i (x ∷ xs) c s =
        let (c', t, done, first) = receive-Reach (e.worlds i) x c (e.others i s) in
        let (c'', u, later, more) = receive_all-Reach (i + 1) xs c' t in
        (c'', u, rw (done, receive_all) later, Reach-trans (apart i s) (Reach-trans first more))

    -- If the others take steps of the server while a connection waits for input, the connection always
    -- ends, whatever its reads give before one fails: `handleConn` returns, and the server that it
    -- leaves is that of a hang-up after steps of the server.
    pub handle_conn-Reach :
        (inputs : List Bytes) (id : ℕ) (remote : Bytes) (s : Server P)
        → (c : Conn) × (t : Server P) × (handle_conn P e inputs id remote s ≡ some (hang_up P c t))
          × Reach P s t
    unfolding handle_conn ended
    handle_conn-Reach inputs id remote s =
        let (c, t, done, r) = receive_all-Reach 0 inputs (new_conn id remote) s in
        (c, t, ap (ended P) done, r)
