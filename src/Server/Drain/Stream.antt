-- ===== src/Server/Drain/Stream.antt =====
-- `drainFrames` on a stream of well-formed packets: each is handled once, in order.
use zx909_gw.Prelude.{
  ℕ, zero, suc, ◌+◌, ◌<◌, ◌≡◌, ap, ◌∙◌, ◌++◌, List, [], ◌∷◌, some, arith, length, drop-append,
  append_assoc,
}
use zx909_gw.Bytes.{Bytes}
use zx909_gw.Platform.{Platform}
use zx909_gw.Protocol.Frame.{incomplete, fault, extract_frame}
use zx909_gw.Protocol.Packet.{Packet, frame_of, stream}
use zx909_gw.Protocol.Packet.Streamed.{AllStreamed, extract_frame-streamed}
use zx909_gw.Server.State.{Server, World}
use zx909_gw.Server.Handle.{Conn, handle_frame}
use zx909_gw.Server.Drain.{drain_frames}
use zx909_gw.Server.Drain.Total.{drain_frames-stops, drain_frames-takes}

module _ (P : Platform) where
  -- The frames of the packets, handled one after the other.
  abbrev pub handle_all : (ℕ → World P) → ℕ → List Packet → Conn → Server P → Conn × Server P
  handle_all ws i [] c s = (c, s)
  handle_all ws i (p ∷ ps) c s =
      let r = handle_frame P (ws i) (frame_of p) c s in handle_all ws (i + 1) ps r.0 r.1

  -- Packets that are plain (outside the Wi-Fi / LBS family, with a body that reaches the floor of its
  -- protocol and has no trailer behind it) or readable (of that family, with access points that are
  -- unlike an LBS block, a block of one to six cells, and no trailer inside), followed by bytes that
  -- wait for more, on more fuel than packets: each packet is handled exactly once and in order, and
  -- the waiting bytes are kept.
  pub drain_frames-stream :
      (fuel : ℕ) (ws : ℕ → World P) (i : ℕ) (ps : List Packet) (tail : Bytes) (c : Conn)
      (s : Server P)
      → AllStreamed ps
      → extract_frame tail ≡ fault incomplete 0
      → length ps < fuel
      → drain_frames P fuel ws i (stream ps ++ tail) c s
        ≡ some (record {
          rest = tail;
          conn = (handle_all ws i ps c s).0;
          server = (handle_all ws i ps c s).1;
        })
  drain_frames-stream zero ws i ps tail c s plain waits h = absurd (omega arith)
  drain_frames-stream (suc fuel) ws i [] tail c s plain waits h =
      drain_frames-stops P fuel ws i tail c s 0 waits
  drain_frames-stream (suc fuel) ws i (p ∷ ps) tail c s plain waits h =
      let raw = (frame_of p).raw in
      let more = stream ps ++ tail in
      let r = handle_frame P (ws i) (frame_of p) c s in
      ap (λ xs. drain_frames P (suc fuel) ws i xs c s) (append_assoc raw (stream ps) tail)
      ∙ drain_frames-takes P fuel ws i (raw ++ more) c s (frame_of p) (length raw)
          (extract_frame-streamed p more plain.0)
      ∙ ap (λ xs. drain_frames P fuel ws (i + 1) xs r.0 r.1) (drop-append raw more)
      ∙ drain_frames-stream fuel ws (i + 1) ps tail r.0 r.1 plain.1 waits (omega arith)
