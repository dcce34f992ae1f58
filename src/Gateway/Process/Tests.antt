-- ===== src/Gateway/Process/Tests.antt =====
-- Concrete runs of the process.
use zx909_gw.Prelude.{◌≡◌, refl, true, false, List, [], ◌∷◌, some}
use zx909_gw.Server.Listener.{
  listens, accepts, starts, ends, marks, closes, returns, closed_socket, stopped, accept_fails,
  returned,
}
use zx909_gw.Gateway.Process.{
  leaving, killed, exited, Process, Happening, connects, is_signalled, gives_up, wakes, listener,
  finishes, disconnects, releases, leaves, run_process, new_process,
}

-- A connection is open when the signal comes, and `Shutdown` waits for it, but not for another one, which
-- has just been accepted: its handler starts while the uplink is disconnected.
abbrev orderly : List Happening
orderly =
    connects true
    ∷ listener (listens true)
    ∷ listener (accepts 3)
    ∷ listener starts
    ∷ listener (accepts 4)
    ∷ is_signalled
    ∷ wakes
    ∷ listener marks
    ∷ listener closes
    ∷ listener (ends 3)
    ∷ listener returns
    ∷ finishes
    ∷ disconnects
    ∷ listener starts
    ∷ listener accept_fails
    ∷ releases
    ∷ []

abbrev late_one : Process
late_one = record {
  stage = leaving;
  catches = false;
  cancelled = true;
  uplink_open = false;
  listener = record {
    socket = closed_socket;
    loop = stopped true;
    closing = true;
    phase = returned;
    handlers = 4 ∷ [];
  };
}

-- The address is taken: the process logs it and leaves with status 0.
abbrev address_taken : List Happening
address_taken =
    connects true
    ∷ listener (listens false)
    ∷ gives_up
    ∷ wakes
    ∷ listener marks
    ∷ listener closes
    ∷ listener returns
    ∷ finishes
    ∷ disconnects
    ∷ releases
    ∷ leaves
    ∷ []

address_taken_run :
    (p : Process) × (run_process address_taken new_process ≡ some p) × (p.stage ≡ exited 0)
unfolding run_process
address_taken_run = (_, refl, refl)

-- After the goroutine of `ListenAndServe` has called `stop`, a signal ends the process at once.
abbrev signalled_late : List Happening
signalled_late = connects true ∷ listener (listens false) ∷ gives_up ∷ wakes ∷ is_signalled ∷ []

signalled_late_run :
    (p : Process) × (run_process signalled_late new_process ≡ some p) × (p.stage ≡ killed)
unfolding run_process
signalled_late_run = (_, refl, refl)
