-- ===== src/Server/Calls/Atomic.antt =====
-- The server whose handlers are not interrupted is a special case of the one whose goroutines interleave.
use mathlib.Core.List.{reverse}
use zx909_gw.Prelude.{◌≡◌, refl, Bool, List, ◌∷◌, ◌++◌}
use zx909_gw.Bytes.{Bytes}
use zx909_gw.Platform.{Platform}
use zx909_gw.Protocol.Frame.{Frame}
use zx909_gw.Server.State.{Server, World, Task}
use zx909_gw.Server.Uplink.{run_task}
use zx909_gw.Server.Handle.{Conn, hang_up, handle_frame, send_to_device}
use zx909_gw.Server.WellFormed.Reach.{new_server}
use zx909_gw.Server.Introduced.{InOrder}
use zx909_gw.Server.Calls.{idle}
use zx909_gw.Server.Calls.Whole.{Runs, Runs-refl, Runs-trans}
use zx909_gw.Server.Calls.Handlers.{
  handle_frame-Runs, hang_up-Runs, run_task-Runs, send_to_device-Runs,
}
use zx909_gw.Server.Calls.Ordered.{interleaved-InOrder}

module _ (P : Platform) where
  -- The steps of the server, where a goroutine runs only if a handler started it.
  pub data Step (s : Server P) : Server P → Type 0 where
    handles : (w : World P) (f : Frame) (c : Conn) → Step s (handle_frame P w f c s).1
    ends : (c : Conn) → Step s (hang_up P c s)
    works :
        (w : World P) (t : Task P) (ts us : List (Task P))
        → s.tasks ≡ ts ++ (t ∷ us)
        → Step s (run_task P w t s)
    commands : (w : World P) (imei payload : Bytes) → Step s (send_to_device P w imei payload s).1

  pub data Reach (s : Server P) : Server P → Type 0 where
    stays : Reach s s
    later : {t u : Server P} → Reach s t → Step t u → Reach s u

  Step-Runs : {s t : Server P} → Step s t → Runs P s t
  Step-Runs {s} (handles w f c) = handle_frame-Runs P w c s f
  Step-Runs {s} (ends c) = hang_up-Runs P c s
  Step-Runs {s} (works w t ts us started) = run_task-Runs P w t s ts us started
  Step-Runs {s} (commands w imei payload) = send_to_device-Runs P w imei payload s

  -- What frames, ends of connections, goroutines that a handler started and commands do to the server
  -- one after the other, each as a whole, the goroutines that interleave can do too: from every state in
  -- which no goroutine is in a call they reach the same server, with no goroutine in a call.
  pub Reach-Runs : {s t : Server P} → Reach s t → Runs P s t
  Reach-Runs {s} stays = Runs-refl P s
  Reach-Runs (later r st) = Runs-trans P (Reach-Runs r) (Step-Runs st)

  -- So here too the telemetry of a device comes after a request to connect it.
  Reach-InOrder :
      (reg_enabled geo_enabled : Bool) {t : Server P}
      → Reach (new_server P reg_enabled geo_enabled) t
      → InOrder P (reverse t.log)
  Reach-InOrder reg_enabled geo_enabled r =
      interleaved-InOrder P reg_enabled geo_enabled
        (((Reach-Runs r).ends (λ i. idle) (λ i. refl)).path)
