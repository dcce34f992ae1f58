-- ===== src/Protocol/Packet/Streamed.antt =====
-- The packets that a stream may hold.
use zx909_gw.Prelude.{◌≡◌, ap, ◌∙◌, sym, List, [], ◌∷◌, ◌++◌, length}
use zx909_gw.Bytes.{Bytes}
use zx909_gw.Protocol.Frame.{frame, extract_frame}
use zx909_gw.Protocol.Packet.{Packet, frame_of, IsPlain, AllPlain, extract_frame-packet}
use zx909_gw.Protocol.Packet.Observation.{
  Observation, packet_of, IsReadable, extract_frame-observation,
}

-- A plain packet, or a readable one of the Wi-Fi / LBS family.
pub data IsStreamed (p : Packet) : Type 0 where
  plain : IsPlain p → IsStreamed p
  readable : (o : Observation) → IsReadable o → packet_of o ≡ p → IsStreamed p

abbrev pub AllStreamed : List Packet → Type 0
AllStreamed [] = Unit {0}
AllStreamed (p ∷ ps) = IsStreamed p × AllStreamed ps

pub AllPlain-AllStreamed : (ps : List Packet) → AllPlain ps → AllStreamed ps
AllPlain-AllStreamed [] h = tt
AllPlain-AllStreamed (p ∷ ps) h = (plain h.0, AllPlain-AllStreamed ps h.1)

pub AllStreamed-append :
    (ps qs : List Packet) → AllStreamed (ps ++ qs) → AllStreamed ps × AllStreamed qs
AllStreamed-append [] qs h = (tt, h)
AllStreamed-append (p ∷ ps) qs h = let r = AllStreamed-append ps qs h.1 in ((h.0, r.0), r.1)

-- A packet is extracted whole, whatever follows it.
pub extract_frame-streamed :
    (p : Packet) (rest : Bytes)
    → IsStreamed p
    → extract_frame ((frame_of p).raw ++ rest) ≡ frame (frame_of p) (length (frame_of p).raw)
extract_frame-streamed p rest (plain h) = extract_frame-packet p rest h
extract_frame-streamed p rest (readable o h same) =
    ap (λ q. extract_frame ((frame_of q).raw ++ rest)) (sym same)
    ∙ extract_frame-observation o rest h
    ∙ ap (λ q. frame (frame_of q) (length (frame_of q).raw)) same
