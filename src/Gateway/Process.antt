-- ===== src/Gateway/Process.antt =====
-- cmd/gateway/main.go: the run of the process, from the connection to ThingsBoard to its exit.
pub mod Ordered
pub mod Tests
use zx909_gw.Prelude.{ℕ, Bool, true, false, List, [], ◌∷◌, Option, none, some, if◌then◌else◌}
use zx909_gw.Server.Listener.{
  Event, listens, accepts, accept_fails, starts, ends, marks, closes, returns, Listener, Loop,
  stopped, Phase, returned, occur, new_listener,
}

-- Where `main` stands, behind `signal.NotifyContext`: in `tb.Connect`, in `<-ctx.Done()`, in
-- `srv.Shutdown()`, in the deferred `tb.Close()`, behind the deferred `stop()`, or gone, with an exit
-- status or by a signal.
pub data Stage : Type 0 where
  connecting running stopping closing leaving killed : Stage
  exited : ℕ → Stage

-- The process: whether its signals are caught, whether its context is cancelled, whether the uplink is
-- connected, and the listener. A process that is gone keeps what it had last.
pub record Process : Type 0 where
  pub stage : Stage
  pub catches : Bool
  pub cancelled : Bool
  pub uplink_open : Bool
  pub listener : Listener

pub data Happening : Type 0 where
  -- `tb.Connect` returns, with its success.
  connects : Bool → Happening
  -- SIGINT or SIGTERM.
  is_signalled : Happening
  -- The goroutine of `ListenAndServe` calls `stop` after an error.
  gives_up : Happening
  -- `<-ctx.Done()` returns.
  wakes : Happening
  -- An event of the listener.
  listener : Event → Happening
  -- `srv.Shutdown()` returns to `main`, which then calls the deferred `tb.Close()`.
  finishes : Happening
  -- The uplink is disconnected while `main` is in `tb.Close()`.
  disconnects : Happening
  -- `tb.Close()` returns, and the deferred `stop()` runs.
  releases : Happening
  -- `main` returns.
  leaves : Happening

-- The parts of `Shutdown`, which `main` calls.
unfoldable pub is_shutdown : Event → Bool
is_shutdown marks = true
is_shutdown closes = true
is_shutdown returns = true
is_shutdown _ = false

-- Behind `tb.Connect` the goroutine of `ListenAndServe` runs, and those of the connections, until the
-- process is gone; `Shutdown` does while `main` is in it.
unfoldable pub may_occur : Stage → Event → Bool
unfolding is_shutdown
may_occur running e = if is_shutdown e then false else true
may_occur stopping e = true
may_occur closing e = if is_shutdown e then false else true
may_occur leaving e = if is_shutdown e then false else true
may_occur _ e = false

unfoldable pub has_failed : Loop → Bool
has_failed (stopped false) = true
has_failed _ = false

unfoldable pub has_returned : Phase → Bool
has_returned returned = true
has_returned _ = false

unfoldable pub connect_uplink : Bool → Process → Option Process
connect_uplink succeeds p = elim p.stage [
  | connecting ↦
      if succeeds
      then some (record p { stage = running; uplink_open = true })
      else some (record p { stage = exited 1 })
  | _ ↦ none
]

unfoldable pub is_gone : Stage → Bool
is_gone (exited _) = true
is_gone killed = true
is_gone _ = false

-- A signal that is caught cancels the context; another one ends the process.
unfoldable pub signal : Process → Option Process
unfolding is_gone
signal p =
    if is_gone p.stage
    then none
    else if p.catches
    then some (record p { cancelled = true })
    else some (record p { stage = killed })

-- `stop` cancels the context and gives the signals back to the system.
unfoldable pub stop : Process → Process
stop p = record p { cancelled = true; catches = false }

unfoldable pub give_up : Process → Option Process
unfolding has_failed is_gone stop
give_up p =
    if is_gone p.stage then none else if has_failed p.listener.loop then some (stop p) else none

unfoldable pub wake : Process → Option Process
wake p = elim p.stage [
  | running ↦ if p.cancelled then some (record p { stage = stopping }) else none
  | _ ↦ none
]

unfoldable pub finish : Process → Option Process
unfolding has_returned
finish p = elim p.stage [
  | stopping ↦ if has_returned p.listener.phase then some (record p { stage = closing }) else none
  | _ ↦ none
]

unfoldable pub disconnect : Process → Option Process
disconnect p = elim p.stage [ closing ↦ some (record p { uplink_open = false }) | _ ↦ none ]

unfoldable pub release : Process → Option Process
unfolding stop
release p = elim p.stage [
  | closing ↦ if p.uplink_open then none else some (stop (record p { stage = leaving }))
  | _ ↦ none
]

unfoldable pub leave : Process → Option Process
leave p = elim p.stage [ leaving ↦ some (record p { stage = exited 0 }) | _ ↦ none ]

unfoldable pub with_listener : Process → Option Listener → Option Process
with_listener p none = none
with_listener p (some l) = some (record p { listener = l })

-- What a happening makes of the process; `none` if it cannot happen.
unfoldable pub happen : Happening → Process → Option Process
unfolding may_occur connect_uplink signal give_up wake finish disconnect release leave with_listener
    occur
happen (connects succeeds) p = connect_uplink succeeds p
happen is_signalled p = signal p
happen gives_up p = give_up p
happen wakes p = wake p
happen (listener e) p = if may_occur p.stage e then with_listener p (occur e p.listener) else none
happen finishes p = finish p
happen disconnects p = disconnect p
happen releases p = release p
happen leaves p = leave p

unfoldable pub run_process : List Happening → Process → Option Process
unfolding happen
run_process [] p = some p
run_process (h ∷ hs) p = elim (happen h p) [ none ↦ none | some q ↦ run_process hs q ]

abbrev pub new_process : Process
new_process = record {
  stage = connecting;
  catches = true;
  cancelled = false;
  uplink_open = false;
  listener = new_listener;
}
