-- ===== src/Server/WellFormed/Reach.antt =====
-- The session map stays well formed in whatever order the connections' goroutines, the tasks and
-- the commands run.
use zx909_gw.Prelude.{refl, Bool, []}
use zx909_gw.Bytes.{Bytes}
use zx909_gw.Platform.{Platform}
use zx909_gw.Protocol.Frame.{Frame}
use zx909_gw.Server.State.{Server, World, Task, find_session, deref}
use zx909_gw.Server.Uplink.{run_task}
use zx909_gw.Server.Handle.{Conn, hang_up, handle_frame, send_to_device}
use zx909_gw.Server.Keeps.{IsWellFormed, Keeps-IsWellFormed, run_task-Keeps}
use zx909_gw.Server.WellFormed.{
  handle_frame-IsWellFormed, hang_up-IsWellFormed, send_to_device-Keeps,
}

module _ (P : Platform) where
  -- The steps of the server: a frame on some connection, the end of a connection, a goroutine that
  -- was started, a command.
  pub data Step (s : Server P) : Server P → Type 0 where
    frames : (w : World P) (f : Frame) (c : Conn) → Step s (handle_frame P w f c s).1
    hangs_up : (c : Conn) → Step s (hang_up P c s)
    runs : (w : World P) (t : Task P) → Step s (run_task P w t s)
    sends : (w : World P) (imei payload : Bytes) → Step s (send_to_device P w imei payload s).1

  pub data Reach (s : Server P) : Server P → Type 0 where
    here : Reach s s
    next : {t u : Server P} → Reach s t → Step t u → Reach s u

  pub Step-IsWellFormed : {s t : Server P} → Step s t → IsWellFormed P s → IsWellFormed P t
  Step-IsWellFormed {s} (frames w f c) v = handle_frame-IsWellFormed P w f c s v
  Step-IsWellFormed {s} (hangs_up c) v = hang_up-IsWellFormed P c s v
  Step-IsWellFormed {s} (runs w t) v = Keeps-IsWellFormed P (run_task-Keeps P w t s) v
  Step-IsWellFormed {s} (sends w imei payload) v =
      Keeps-IsWellFormed P (send_to_device-Keeps P w imei payload s) v

  Reach-steps : {s t : Server P} → Reach s t → IsWellFormed P s → IsWellFormed P t
  Reach-steps here v = v
  Reach-steps (next r st) v = Step-IsWellFormed st (Reach-steps r v)

  -- `New`.
  abbrev pub new_server : Bool → Bool → Server P
  new_server reg_enabled geo_enabled = record {
    reg_enabled = reg_enabled;
    geo_enabled = geo_enabled;
    sessions = [];
    heap = [];
    next = 0;
    log = [];
    tasks = [];
  }

  -- In every server that steps reach from a new one (frames on any connection, ends of connections,
  -- goroutines, commands, in any order and with any answers of the environment) the session map has
  -- each IMEI once, it leads from an IMEI to a session of that IMEI, and session numbers not given
  -- out yet are not in use.
  pub Reach-IsWellFormed :
      (reg_enabled geo_enabled : Bool) {t : Server P}
      → Reach (new_server reg_enabled geo_enabled) t
      → IsWellFormed P t
  unfolding deref find_session
  Reach-IsWellFormed reg_enabled geo_enabled r =
      Reach-steps r (record { keys = tt; owned = λ imei p e. absurd (cc); unused = λ p h. refl })
