-- ===== src/Server/Drain/Chunks.antt =====
-- Where a stream of packets is cut.
use zx909_gw.Prelude.{
  ◌≡◌, refl, ap, ◌∙◌, sym, inl, inr, [], ◌∷◌, ◌++◌, List, arith, length, drop, append_assoc,
}
use zx909_gw.Bytes.{Bytes}
use zx909_gw.Protocol.Frame.{incomplete, fault, extract_frame}
use zx909_gw.Protocol.Packet.{Packet, frame_of, stream}
use zx909_gw.Protocol.Packet.Streamed.{AllStreamed}
use zx909_gw.Server.Drain.Prefix.{split_le, le_or_lt, streamed_waits}

-- Where a stream of packets is cut: behind some packets and a piece that waits for the rest.
pub record IsCutAt (ps : List Packet) (a b : Bytes) : Type 0 where
  pub done : List Packet
  pub left : List Packet
  pub piece : Bytes
  pub packets : ps ≡ done ++ left
  pub before : a ≡ stream done ++ piece
  pub after : piece ++ b ≡ stream left
  pub waits : extract_frame piece ≡ fault incomplete 0

pub stream-IsCutAt :
    (ps : List Packet) (a b : Bytes) → AllStreamed ps → a ++ b ≡ stream ps → IsCutAt ps a b
stream-IsCutAt [] [] b h e = record {
  done = [];
  left = [];
  piece = [];
  packets = refl;
  before = refl;
  after = e;
  waits = unfold extract_frame in refl;
}
stream-IsCutAt [] (x ∷ a) b h e = absurd (cc)
stream-IsCutAt (p ∷ ps) a b h e = elim (le_or_lt (length (frame_of p).raw) (length a)) [
  | inl whole ↦
      let r = split_le (frame_of p).raw (stream ps) a b (sym e) whole in
      let k = stream-IsCutAt ps (drop (length (frame_of p).raw) a) b h.1 (sym r.1) in
      record {
        done = p ∷ k.done;
        left = k.left;
        piece = k.piece;
        packets = ap (◌∷◌ p) k.packets;
        before =
            r.0
            ∙ ap (◌++◌ (frame_of p).raw) k.before
            ∙ sym (append_assoc (frame_of p).raw (stream k.done) k.piece);
        after = k.after;
        waits = k.waits;
      }
  | inr part ↦
      let r = split_le a b (frame_of p).raw (stream ps) e (omega arith) in
      record {
        done = [];
        left = p ∷ ps;
        piece = a;
        packets = refl;
        before = refl;
        after = e;
        waits = streamed_waits p a (drop (length a) (frame_of p).raw) h.0 r.0 part;
      }
]
