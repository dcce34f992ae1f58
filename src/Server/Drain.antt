-- ===== src/Server/Drain.antt =====
-- internal/server/server.go: `drainFrames`, and the body of the read loop of `handleConn`.
pub mod Total
pub mod Stream
pub mod Receive
pub mod Prefix
pub mod Chunks
pub mod Pieces
use zx909_gw.Prelude.{
  ℕ, zero, suc, ◌+◌, Bool, ◌&&◌, ◌++◌, Option, none, some, ltb, leb, if◌then◌else◌, length, drop,
  map,
}
use zx909_gw.Bytes.{Bytes}
use zx909_gw.Platform.{Platform}
use zx909_gw.Protocol.Frame.{FrameError, incomplete, Frame, frame, fault, extract_frame}
use zx909_gw.Server.State.{Server, World}
use zx909_gw.Server.Handle.{Conn, handle_frame}

-- What the loop drops after an error other than `ErrIncomplete`.
unfoldable pub resync : ℕ → Bytes → Bytes
resync consumed buf =
    if ltb 0 consumed && leb consumed (length buf)
    then drop consumed buf
    else if ltb 0 (length buf)
    then drop 1 buf
    else buf

module _ (P : Platform) where
  -- The bytes that are left, the connection's variables and the server.
  pub record Drained : Type 0 where
    pub rest : Bytes
    pub conn : Conn
    pub server : Server P

  -- The loop, on fuel; `ws i` is what the environment answers while the `i`-th round runs.
  unfoldable pub drain_frames : ℕ → (ℕ → World P) → ℕ → Bytes → Conn → Server P → Option Drained
  unfolding resync
  drain_frames zero ws i buf c s = none
  drain_frames (suc fuel) ws i buf c s = elim (extract_frame buf) [
    | fault e consumed ↦ elim e [
      | incomplete ↦ some (record { rest = buf; conn = c; server = s })
      | _ ↦ drain_frames fuel ws (i + 1) (resync consumed buf) c s
    ]
    | frame f consumed ↦
        let r = handle_frame P (ws i) f c s in
        drain_frames fuel ws (i + 1) (drop consumed buf) r.0 r.1
  ]

  -- One round of the read loop: `tmp[:n]` is appended and the frames are taken out. The fuel is
  -- one more than the number of bytes, since each round of the inner loop drops a byte or more.
  unfoldable pub receive : (ℕ → World P) → Bytes → Conn → Server P → Option (Conn × Server P)
  receive ws input c s =
      let buf = c.buf ++ input in
      elim (drain_frames (suc (length buf)) ws 0 buf c s) [
        | none ↦ none
        | some d ↦ some (record d.conn { buf = d.rest }, d.server)
      ]
