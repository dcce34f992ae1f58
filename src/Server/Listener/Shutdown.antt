-- ===== src/Server/Listener/Shutdown.antt =====
-- What `Shutdown` achieves on a server that listens.
use mathlib.Core.Path.{subst}
use zx909_gw.Prelude.{◌+◌, ◌≤◌, ◌≡◌, inl, inr, true, List, some, arith, length}
use zx909_gw.Server.Listener.{
  closed_socket, Loop, starting, accepting, holding, stopped, Phase, waiting, returned, Listener,
  Event, run, new_listener,
}
use zx909_gw.Server.Listener.Stops.{IsServing, closed, loop_left, phase_left, Progress, run-closed}
use zx909_gw.Server.Listener.Reach.{held, IsSound, run-IsSound, new_listener-IsSound}

loop_left_bound : (lo : Loop) → loop_left lo ≤ 3
loop_left_bound starting = omega arith
loop_left_bound accepting = omega arith
loop_left_bound (holding c) = omega arith
loop_left_bound (stopped r) = omega arith

phase_left_bound : (ph : Phase) → phase_left ph ≤ 1
phase_left_bound Phase.not_called = omega arith
phase_left_bound Phase.marked = omega arith
phase_left_bound waiting = omega arith
phase_left_bound returned = omega arith

serving : (l : Listener) → IsSound l → l.socket ≡ closed_socket → IsServing l.loop
serving l v gone = elim v.begun [ inl none_yet ↦ absurd (ground arith) | inr s ↦ s ]

-- A state in which the socket is closed is determined by three of its parts.
closed_eta :
    (l : Listener)
    → l.socket ≡ closed_socket
    → l.closing ≡ true
    → l ≡ closed l.loop l.phase l.handlers
closed_eta l gone mark i = record {
  socket = gone i;
  loop = l.loop;
  closing = mark i;
  phase = l.phase;
  handlers = l.handlers;
}

-- Once `Shutdown` has closed the socket of a server, in any state that the server reaches, every run
-- that follows has at most as many events as handlers are running, and four; and where it ends,
-- either `Shutdown` has returned, `ListenAndServe` has returned nil and no handler runs, or some
-- event can occur.
pub shutdown-Progress :
    (before after : List Event) (l t : Listener)
    → run before new_listener ≡ some l
    → l.socket ≡ closed_socket
    → run after l ≡ some t
    → (length after ≤ length l.handlers + 4) × Progress t
shutdown-Progress before after l t reached gone h =
    let v = run-IsSound before new_listener l new_listener-IsSound reached in
    let past = v.closed_last gone in
    let mark : l.closing ≡ true = v.closing_first (λ e. ground arith) in
    let r =
      run-closed after l.loop l.phase l.handlers t past (serving l v gone)
        (subst (λ l. run after l ≡ some t) (closed_eta l gone mark) h) in
    let bound = r.0 in
    let loop_bound = loop_left_bound l.loop in
    let phase_bound = phase_left_bound l.phase in (omega arith, r.1)

-- Where `Shutdown` has returned and the listening socket is closed (so that `net.Listen` had opened it
-- before `Shutdown` looked for it), at most one connection has a handler or gets one.
pub returned-late :
    (es : List Event) (t : Listener)
    → run es new_listener ≡ some t
    → t.socket ≡ closed_socket
    → t.phase ≡ returned
    → length t.handlers + held t.loop ≤ 1
returned-late es t reached gone done =
    let v = run-IsSound es new_listener t new_listener-IsSound reached in v.late gone done
