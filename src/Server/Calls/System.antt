-- ===== src/Server/Calls/System.antt =====
-- The goroutines of the server, interleaved: the sections of handleFrame, handleConn and SendToDevice that
-- do not lead to ThingsBoard, and the calls that do, step by step.
use zx909_gw.Prelude.{update, ℕ, ◌≡◌, Bool, List, ◌∷◌, ◌++◌, Option, some}
use zx909_gw.Bytes.{Bytes}
use zx909_gw.Platform.{Platform}
use zx909_gw.Protocol.WifiLbs.{WifiLbs}
use zx909_gw.Server.State.{
  Server, World, Task, maybe_connect_tb, resolve_and_publish_lbs, Telemetry, write, close,
  disconnect_device, emit, touch, register_session, remove_session,
}
use zx909_gw.Server.Handle.{start}
use zx909_gw.Server.WellFormed.Reach.{new_server}
use zx909_gw.Server.Calls.{Pc, idle, publishes, connects, advance}

module _ (P : Platform) where
  open P use {Time}

  -- `registerSession`, and `go s.maybeConnectTB` for the new session.
  unfoldable pub log_in : Time → Time → Bytes → ℕ → Bytes → Server P → Server P
  log_in now later imei conn remote s =
      let r = register_session P now later imei conn remote s in
      start P (maybe_connect_tb (some r.0) imei) r.1

  -- What the server does elsewhere, in any order, which allows more than the code does.
  pub data Section (s : Server P) : Server P → Type 0 where
    touches : (now : Time) (p : Option ℕ) → Section s (touch P now p s)
    writes : (conn : ℕ) (bytes : Bytes) → Section s (emit P (write conn bytes) s)
    closes : (conn : ℕ) → Section s (emit P (close conn) s)
    reports : (imei : Bytes) → Section s (emit P (disconnect_device imei) s)
    registers :
        (now later : Time) (imei : Bytes) (conn : ℕ) (remote : Bytes)
        → Section s (log_in now later imei conn remote s)
    removes : (imei : Bytes) (sess : Option ℕ) → Section s (remove_session P imei sess s)
    resolves :
        (imei : Bytes) (wl : WifiLbs P) → Section s (start P (resolve_and_publish_lbs imei wl) s)

  pub record System : Type 0 where
    pub server : Server P
    pub pc : ℕ → Pc P

  pub data Step (y : System) : System → Type 0 where
    elsewhere : {t : Server P} → Section y.server t → Step y (record y { server = t })
    -- Goroutine `i` calls `publishLocation` or `publishTelemetry`.
    calls :
        (i : ℕ) (imei : Bytes) (ts : Time) (values : Telemetry P)
        → y.pc i ≡ idle
        → Step y (record y { pc = update y.pc i (publishes imei ts values) })
    -- Goroutine `i` is one that a login has started.
    runs :
        (i : ℕ) (sess : Option ℕ) (imei : Bytes) (ts us : List (Task P))
        → y.pc i ≡ idle
        → y.server.tasks ≡ ts ++ (maybe_connect_tb sess imei ∷ us)
        → Step y (record y { pc = update y.pc i (connects sess imei) })
    advances :
        (w : World P) (i : ℕ)
        → Step y (record {
          server = (advance P w (y.pc i) y.server).1;
          pc = update y.pc i (advance P w (y.pc i) y.server).0;
        })

  abbrev pub new_system : Bool → Bool → System
  new_system reg_enabled geo_enabled = record {
    server = new_server P reg_enabled geo_enabled;
    pc = λ i. idle;
  }

  pub data Reach (y : System) : System → Type 0 where
    stays : Reach y y
    steps : {z u : System} → Reach y z → Step z u → Reach y u
