-- ===== src/Server/Connection.antt =====
-- internal/server/server.go: a whole connection, `handleConn` from its first read to the deferred calls.
pub mod Steps
pub mod Served
pub mod Tests
use zx909_gw.Prelude.{ℕ, ◌+◌, List, [], ◌∷◌, Option, none, some}
use zx909_gw.Bytes.{Bytes}
use zx909_gw.Platform.{Platform}
use zx909_gw.Server.State.{Server, World}
use zx909_gw.Server.Handle.{Conn, hang_up}
use zx909_gw.Server.Drain.{receive}

-- The variables at the start of `handleConn`.
abbrev pub new_conn : ℕ → Bytes → Conn
new_conn id remote = record { id = id; remote = remote; imei = []; sess = none; buf = [] }

module _ (P : Platform) where
  -- What runs beside the connection: the answers of the environment in the `i`-th round of the read
  -- loop, and what other goroutines do to the server while the connection waits in its `i`-th read.
  pub record Surroundings : Type 0 where
    pub worlds : ℕ → ℕ → World P
    pub others : ℕ → Server P → Server P

  -- The read loop; the inputs are what the reads give before one fails.
  unfoldable pub receive_all :
      Surroundings → ℕ → List Bytes → Conn → Server P → Option (Conn × Server P)
  receive_all e i [] c s = some (c, e.others i s)
  receive_all e i (x ∷ xs) c s = elim (receive P (e.worlds i) x c (e.others i s)) [
    | none ↦ none
    | some r ↦ receive_all e (i + 1) xs r.0 r.1
  ]

  unfoldable pub ended : Option (Conn × Server P) → Option (Server P)
  ended none = none
  ended (some r) = some (hang_up P r.0 r.1)

  -- `handleConn`: the read loop until a read fails, then the deferred calls.
  unfoldable pub handle_conn : Surroundings → List Bytes → ℕ → Bytes → Server P → Option (Server P)
  unfolding receive_all ended
  handle_conn e inputs id remote s = ended (receive_all e 0 inputs (new_conn id remote) s)
