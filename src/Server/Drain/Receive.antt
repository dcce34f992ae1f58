-- ===== src/Server/Drain/Receive.antt =====
-- One round of the read loop.
use zx909_gw.Prelude.{ℕ, suc, ◌≡◌, ◌≤◌, ◌+◌, ◌++◌, some, arith, length, length-append}
use zx909_gw.Bytes.{Bytes}
use zx909_gw.Platform.{Platform}
use zx909_gw.Protocol.Frame.{incomplete, fault, extract_frame}
use zx909_gw.Server.State.{Server, World}
use zx909_gw.Server.Handle.{Conn}
use zx909_gw.Server.Drain.{receive}
use zx909_gw.Server.Drain.Total.{drain_frames-Finishes}

module _ (P : Platform) where
  -- A round of the read loop always ends, whatever bytes arrive: the new buffer holds no complete
  -- frame and nothing to skip, and is no longer than the old buffer and the input together.
  pub receive_total :
      (ws : ℕ → World P) (input : Bytes) (c : Conn) (s : Server P)
      → (c' : Conn) × (s' : Server P) × (receive P ws input c s ≡ some (c', s'))
        × (extract_frame c'.buf ≡ fault incomplete 0)
        × (length c'.buf ≤ length c.buf + length input)
  unfolding receive
  receive_total ws input c s =
      let buf = c.buf ++ input in
      let r = drain_frames-Finishes P (suc (length buf)) ws 0 buf c s (omega arith) in
      (
        record r.result.conn { buf = r.result.rest },
        r.result.server,
        rw (r.finishes, receive),
        r.waits,
        omega (arith, r.shorter, length-append c.buf input),
      )
