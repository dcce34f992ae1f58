-- ===== src/Server/Drain/Pieces.antt =====
-- The read loop on a stream of packets that arrives in two pieces.
use mathlib.Core.Path.{subst}
use zx909_gw.Prelude.{
  ℕ, suc, ◌≤◌, ◌≡◌, refl, ap, ◌∙◌, sym, [], ◌∷◌, ◌++◌, List, some, arith, length, length-append,
  append-nil,
}
use zx909_gw.Bytes.{Bytes}
use zx909_gw.Platform.{Platform}
use zx909_gw.Protocol.Frame.{incomplete, fault, extract_frame}
use zx909_gw.Protocol.Frame.Sound.{length-framed}
use zx909_gw.Protocol.Packet.{Packet, frame_of, stream}
use zx909_gw.Protocol.Packet.Streamed.{AllStreamed, AllStreamed-append}
use zx909_gw.Server.State.{Server, World}
use zx909_gw.Server.Handle.{Conn}
use zx909_gw.Server.Drain.{drain_frames, receive}
use zx909_gw.Server.Drain.Stream.{handle_all, drain_frames-stream}
use zx909_gw.Server.Drain.Chunks.{IsCutAt, stream-IsCutAt}

length-stream : (ps : List Packet) → length ps ≤ length (stream ps)
length-stream [] = omega arith
length-stream (p ∷ ps) = omega (
  arith,
  length-append (frame_of p).raw (stream ps),
  length-framed p.ext p.len_hi p.len_lo p.proto p.body,
  length-stream ps,
)

module _ (P : Platform) where
  pub receive-stream :
      (ws : ℕ → World P) (input : Bytes) (ps : List Packet) (tail : Bytes) (c : Conn) (s : Server P)
      → c.buf ++ input ≡ stream ps ++ tail
      → AllStreamed ps
      → extract_frame tail ≡ fault incomplete 0
      → receive P ws input c s
        ≡ some (record (handle_all P ws 0 ps c s).0 { buf = tail }, (handle_all P ws 0 ps c s).1)
  unfolding receive
  receive-stream ws input ps tail c s e plain waits =
      let drained =
        ap (λ xs. drain_frames P (suc (length (c.buf ++ input))) ws 0 xs c s) e
        ∙ drain_frames-stream P (suc (length (c.buf ++ input))) ws 0 ps tail c s plain waits
            (omega (arith, length-stream ps, ap length e, length-append (stream ps) tail)) in
      rw (drained, receive)

  -- A stream of packets outside the Wi-Fi / LBS family, each with a body that reaches the floor of its
  -- protocol and has no trailer behind it, arrives in two pieces at a connection with an empty
  -- buffer, cut anywhere. Then the packets split in two: the first round handles the first ones, each
  -- once and in order, and keeps the bytes of a packet begun; the second round handles the others,
  -- the one that was cut included, each once and in order, and leaves the buffer empty.
  pub receive-IsCutAt :
      (ws ws' : ℕ → World P) (ps : List Packet) (a b : Bytes) (c : Conn) (s : Server P)
      → c.buf ≡ []
      → AllStreamed ps
      → a ++ b ≡ stream ps
      → (k : IsCutAt ps a b) × (let r = handle_all P ws 0 k.done c s in
          let c' : Conn = record r.0 { buf = k.piece } in
          let r' = handle_all P ws' 0 k.left c' r.1 in
          (receive P ws a c s ≡ some (c', r.1))
          × (receive P ws' b c' r.1 ≡ some (record r'.0 { buf = [] }, r'.1)))
  receive-IsCutAt ws ws' ps a b c s empty plain e =
      let k = stream-IsCutAt ps a b plain e in
      let split = AllStreamed-append k.done k.left (subst AllStreamed k.packets plain) in
      let r = handle_all P ws 0 k.done c s in
      (
        k,
        (
          receive-stream ws a k.done k.piece c s (ap (λ xs. xs ++ a) empty ∙ k.before) split.0
              k.waits,
          receive-stream ws' b k.left [] (record r.0 { buf = k.piece }) r.1
              (k.after ∙ sym (append-nil (stream k.left))) split.1 (unfold extract_frame in refl),
        ),
      )
