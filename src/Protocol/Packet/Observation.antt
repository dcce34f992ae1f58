-- ===== src/Protocol/Packet/Observation.antt =====
-- Whole packets of the Wi-Fi / LBS family, with access points and an LBS block.
use zx909_gw.Prelude.{
  ℕ, ◌≤◌, ◌<◌, ◌≡◌, ap, ◌∙◌, false, true, List, [], ◌∷◌, ◌++◌, arith, length, append_assoc,
}
use zx909_gw.Bytes.{Bytes, crlf}
use zx909_gw.Protocol.Frame.{frame, is_wifi_lbs, extract_frame}
use zx909_gw.Protocol.Frame.Scan.{has_crlf}
use zx909_gw.Protocol.Frame.Cut.{lead}
use zx909_gw.Protocol.Frame.Sound.{length-framed}
use zx909_gw.Protocol.WifiLbs.{CellTower}
use zx909_gw.Protocol.WifiLbs.Points.{Point, AreUnlike, observed}
use zx909_gw.Protocol.WifiLbs.Observed.{extract_frame-points, length-observed}
use zx909_gw.Protocol.Packet.{Packet, frame_of}

-- What a device has seen, and when; `len` is the length byte, `proto` one of the family.
pub record Observation : Type 0 where
  pub len : ℕ
  pub proto : ℕ
  pub year : ℕ
  pub month : ℕ
  pub day : ℕ
  pub hour : ℕ
  pub minute : ℕ
  pub second : ℕ
  pub points : List Point
  pub mcc : ℕ
  pub mnc : ℕ
  pub towers : List CellTower

abbrev pub content_of : Observation → Bytes
content_of o = observed o.mcc o.mnc o.towers o.year o.month o.day o.hour o.minute o.second o.points

abbrev pub packet_of : Observation → Packet
packet_of o = record {
  ext = false;
  len_hi = o.len;
  len_lo = 0;
  proto = o.proto;
  body = content_of o;
}

-- The protocol is of the Wi-Fi / LBS family, there are one to six cells of an operator with MCC from 1
-- to 999, no three bytes in a row before the block are like its start, and no trailer stands before
-- the end.
pub record IsReadable (o : Observation) : Type 0 where
  pub wifi : is_wifi_lbs o.proto ≡ true
  pub some_towers : 1 ≤ length o.towers
  pub few_towers : length o.towers ≤ 6
  pub real_mcc : 0 < o.mcc
  pub short_mcc : o.mcc ≤ 999
  pub unlike : AreUnlike o.mcc o.towers o.points
  pub quiet : has_crlf (content_of o ++ (0x0D ∷ [])) ≡ false

pub extract_frame-observation :
    (o : Observation) (rest : Bytes)
    → IsReadable o
    → extract_frame ((frame_of (packet_of o)).raw ++ rest)
      ≡ frame (frame_of (packet_of o)) (length (frame_of (packet_of o)).raw)
extract_frame-observation o rest h =
    let body = content_of o in
    ap extract_frame (
      append_assoc (lead false o.len 0 o.proto) (body ++ crlf) rest
      ∙ ap (λ xs. lead false o.len 0 o.proto ++ xs) (append_assoc body crlf rest))
    ∙ extract_frame-points o.mcc o.mnc o.towers h.some_towers h.few_towers h.real_mcc h.short_mcc
        o.len o.proto o.year o.month o.day o.hour o.minute o.second o.points rest h.wifi h.unlike
    ∙ ap (frame (frame_of (packet_of o))) (
        omega (
          arith,
          length-framed false o.len 0 o.proto body,
          length-observed o.mcc o.mnc o.towers h.some_towers h.few_towers h.real_mcc h.short_mcc
              o.year o.month o.day o.hour o.minute o.second o.points,
        ))
