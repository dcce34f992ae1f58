-- ===== src/Protocol/Packet.antt =====
-- Whole packets as a device writes them: header, length, protocol number, body and trailer.
pub mod Observation
pub mod Streamed
use zx909_gw.Prelude.{
  ℕ, ◌≤◌, ◌≡◌, ap, ◌∙◌, sym, Bool, false, List, [], ◌∷◌, ◌++◌, arith, length, drop, drop_all,
  append_assoc,
}
use zx909_gw.Bytes.{Bytes, crlf}
use zx909_gw.Protocol.Frame.{Frame, frame, is_wifi_lbs, extract_frame}
use zx909_gw.Protocol.Frame.Scan.{has_crlf}
use zx909_gw.Protocol.Frame.Cut.{lead, framed}
use zx909_gw.Protocol.Frame.Extract.{content_floor}
use zx909_gw.Protocol.Frame.Sound.{length-framed}
use zx909_gw.Protocol.Frame.Stream.{extract_frame-roundtrip}

-- What a device puts on the wire.
pub record Packet : Type 0 where
  pub ext : Bool
  pub len_hi : ℕ
  pub len_lo : ℕ
  pub proto : ℕ
  pub body : Bytes

abbrev pub frame_of : Packet → Frame
frame_of p = framed p.ext p.len_hi p.len_lo p.proto p.body

-- The protocol is not of the Wi-Fi / LBS family, the body reaches the floor of its protocol, and
-- no trailer stands behind the floor.
pub record IsPlain (p : Packet) : Type 0 where
  pub not_wifi : is_wifi_lbs p.proto ≡ false
  pub long : content_floor p.proto [] ≤ length p.body
  pub clean : has_crlf (drop (content_floor p.proto []) p.body) ≡ false

-- A body that ends at its floor is plain whatever bytes it holds.
pub IsPlain-of_length :
    (p : Packet)
    → is_wifi_lbs p.proto ≡ false
    → length p.body ≡ content_floor p.proto []
    → IsPlain p
IsPlain-of_length p fixed size = record {
  not_wifi = fixed;
  long = omega arith;
  clean = ap has_crlf (drop_all _ p.body (omega arith));
}

abbrev pub AllPlain : List Packet → Type 0
AllPlain [] = Unit {0}
AllPlain (p ∷ ps) = IsPlain p × AllPlain ps

abbrev pub stream : List Packet → Bytes
stream [] = []
stream (p ∷ ps) = (frame_of p).raw ++ stream ps

pub extract_frame-packet :
    (p : Packet) (rest : Bytes)
    → IsPlain p
    → extract_frame ((frame_of p).raw ++ rest) ≡ frame (frame_of p) (length (frame_of p).raw)
extract_frame-packet p rest h =
    ap extract_frame (
      append_assoc (lead p.ext p.len_hi p.len_lo p.proto) (p.body ++ crlf) rest
      ∙ ap (λ xs. lead p.ext p.len_hi p.len_lo p.proto ++ xs) (append_assoc p.body crlf rest))
    ∙ extract_frame-roundtrip p.ext p.len_hi p.len_lo p.proto p.body rest h.not_wifi h.long h.clean
    ∙ ap (frame (frame_of p)) (sym (length-framed p.ext p.len_hi p.len_lo p.proto p.body))
