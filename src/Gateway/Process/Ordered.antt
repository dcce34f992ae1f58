-- ===== src/Gateway/Process/Ordered.antt =====
-- The order in which the process starts and ends its parts, and what is left of the connections when the
-- uplink is closed.
use zx909_gw.Prelude.{zero, suc, ◌≡◌, ◌⊎◌, Bool, true, false, Option, none, some}
use zx909_gw.Server.Listener.{Listener, not_called, returned, new_listener}
use zx909_gw.Server.Listener.Reach.{IsSound}
use zx909_gw.Gateway.Process.{
  Stage, connecting, running, stopping, closing, leaving, killed, exited, Process, listener,
}

-- `Shutdown` has returned, and the context was cancelled before.
abbrev IsOver : Process → Type 0
IsOver p = (p.cancelled ≡ true) × (p.listener.phase ≡ returned)

abbrev IsOrderedAt : Stage → Process → Type 0
IsOrderedAt connecting p = (p.uplink_open ≡ false) × (p.listener ≡ new_listener)
IsOrderedAt running p = (p.uplink_open ≡ true) × (p.listener.phase ≡ not_called)
IsOrderedAt stopping p = (p.uplink_open ≡ true) × (p.cancelled ≡ true)
IsOrderedAt closing p = IsOver p
IsOrderedAt leaving p = IsOver p
IsOrderedAt killed p = p.uplink_open ≡ false → (p.listener ≡ new_listener) ⊎ IsOver p
IsOrderedAt (exited zero) p = IsOver p
IsOrderedAt (exited (suc _)) p = p.listener ≡ new_listener

record IsOrdered (p : Process) : Type 0 where
  stages : IsOrderedAt p.stage p
  sound : IsSound p.listener

abbrev AllowsOnly : Option Process → Type 0
AllowsOnly none = Unit {0}
AllowsOnly (some q) = IsOrdered q

abbrev at : Stage → Bool → Bool → Bool → Listener → Process
at st k c u l = record { stage = st; catches = k; cancelled = c; uplink_open = u; listener = l }
