-- ===== src/Protocol/Tests.antt =====
-- Concrete runs of the protocol functions; the inputs are those of frame_extract_test.go.
use zx909_gw.Prelude.{◌≡◌, refl, true, false, [], ◌∷◌, ◌++◌, some, arith, take}
use zx909_gw.Bytes.{Bytes}
use zx909_gw.Samples.{sample_platform, gps_raw, gps_frame}
use zx909_gw.Protocol.Frame.{
  is_wifi_lbs, frame, fault, incomplete, bad_header, extract_frame, find_start, find_trailer,
  trailer_from, content_bounds, wifi_lbs_content_bounds, frame_from_raw, cut_by_bounds,
  cut_by_trailer,
}
use zx909_gw.Protocol.Frame.Cut.{lead, framed, cut_by_bounds-cut_by_trailer}
use zx909_gw.Protocol.Frame.Extract.{Ending, extract_frame-Ending}
use zx909_gw.Protocol.Frame.Stream.{extract_frame-append}
use zx909_gw.Protocol.Frame.Sound.{IsFront, extract_frame-IsFront}
use zx909_gw.Protocol.Frame.SixByteCells.{lbs_content, extract_frame-six_byte_cells}
use zx909_gw.Protocol.Parsed.{ok}
use zx909_gw.Protocol.Status.{Status, parse_status}
use zx909_gw.Protocol.Status.Fields.{IsStatusOf, parse_status-IsStatusOf}
use zx909_gw.Protocol.Iccid.Printable.{parse_iccid-roundtrip}
use zx909_gw.Protocol.Iccid.{parse_iccid, is_print}
use zx909_gw.Protocol.WifiLbs.{CellTower, packet_time, parse_cells, parse_wifi_lbs}
use zx909_gw.Protocol.WifiLbs.Cells.{lbs_block}
use zx909_gw.Protocol.WifiLbs.Points.{Point, points_bytes, sighted, observed}
use zx909_gw.Protocol.WifiLbs.Observed.{parse_wifi_lbs-observed, parse_wifi_lbs-mac_as_lbs}

extract_gps : extract_frame gps_raw ≡ frame gps_frame 24
unfolding extract_frame find_start find_trailer trailer_from content_bounds frame_from_raw
extract_gps = refl

-- A stalled Wi-Fi / LBS packet: one cell of six bytes.
abbrev six_byte_cell : Bytes
six_byte_cell =
    0x78 ∷ 0x78 ∷ 0 ∷ 0x1A ∷ 0x17 ∷ 0x06 ∷ 0x22 ∷ 0x12 ∷ 0x30 ∷ 0x31 ∷ 1 ∷ 1 ∷ 0xB0 ∷ 0x0B ∷ 0x12
    ∷ 0x34 ∷ 0 ∷ 0x56 ∷ 0x78 ∷ 0x40 ∷ 0x0D ∷ 0x0A ∷ []

extract_six_byte_cell : extract_frame six_byte_cell ≡ fault incomplete 0
unfolding extract_frame find_start find_trailer trailer_from content_bounds frame_from_raw
    wifi_lbs_content_bounds
extract_six_byte_cell = refl

abbrev noise : Bytes
noise = 1 ∷ 2 ∷ 3 ∷ 4 ∷ 5 ∷ 0x78 ∷ 0x78 ∷ []

extract_noise : extract_frame noise ≡ fault bad_header 5
unfolding extract_frame find_start
extract_noise = refl

extract_frame-append_example : extract_frame (gps_raw ++ (1 ∷ 2 ∷ [])) ≡ frame gps_frame 24
unfolding is_wifi_lbs
extract_frame-append_example = extract_frame-append gps_raw (1 ∷ 2 ∷ []) extract_gps refl

extract_frame-Ending_example : Ending gps_raw (extract_frame gps_raw)
extract_frame-Ending_example = extract_frame-Ending gps_raw

extract_frame-IsFront_example : IsFront gps_raw gps_frame 24
extract_frame-IsFront_example = extract_frame-IsFront gps_raw extract_gps

cut_by_bounds-cut_by_trailer_example :
    cut_by_bounds 0x7878 4 gps_raw (record { min = 6; exact = some 18; known = true })
    ≡ cut_by_trailer 0x7878 4 gps_raw 18
cut_by_bounds-cut_by_trailer_example =
    cut_by_bounds-cut_by_trailer 0x7878 4 gps_raw
      (record { min = 6; exact = some 18; known = true })

extract_frame-six_byte_cells_example :
    extract_frame (
      lead false 0 0 0x1A
      ++ lbs_content 0x17 6 0x22 0x12 0x30 0x31 1 1 0xB0 0x0B
          (0x12 ∷ 0x34 ∷ 0 ∷ 0x56 ∷ 0x78 ∷ 0x40 ∷ []))
    ≡ fault incomplete 0
unfolding is_wifi_lbs
extract_frame-six_byte_cells_example =
    extract_frame-six_byte_cells 0x17 6 0x22 0x12 0x30 0x31 1 1 0xB0 0x0B
      (0x12 ∷ 0x34 ∷ 0 ∷ 0x56 ∷ 0x78 ∷ 0x40 ∷ []) (omega arith) (omega arith) (omega arith)
      (omega arith) refl 0 0x1A refl

parse_status-IsStatusOf_example :
    (s : Status) × (parse_status (100 ∷ 0x39 ∷ 0xFD ∷ 2 ∷ []) ≡ ok s)
    × IsStatusOf 100 0x39 0xFD 2 [] s
parse_status-IsStatusOf_example = parse_status-IsStatusOf 100 0x39 0xFD 2 [] (omega arith)

iccid_run : parse_iccid (1 ∷ b'8' ∷ 2 ∷ b'9' ∷ []) ≡ ok (b'8' ∷ b'9' ∷ [])
unfolding parse_iccid
iccid_run = refl

parse_iccid-roundtrip_example : parse_iccid (b'8' ∷ b'9' ∷ 0 ∷ 1 ∷ []) ≡ ok (b'8' ∷ b'9' ∷ [])
unfolding is_print
parse_iccid-roundtrip_example =
    parse_iccid-roundtrip b'8' (b'9' ∷ []) (1 ∷ []) (refl, (refl, tt))
      (omega arith, (omega arith, tt))

abbrev sample_cell : CellTower
sample_cell = record { mcc = 432; mnc = 11; lac = 0x1234; cell_id = 0x0D0A; signal = 0x40 }

-- The MAC aa:bb:cc:0d:0a:dd with the bytes of a trailer in it.
abbrev sample_point : Point
sample_point = record {
  m0 = 0xAA;
  m1 = 0xBB;
  m2 = 0xCC;
  m3 = 0x0D;
  m4 = 0x0A;
  m5 = 0xDD;
  rssi = 0xC8;
}

-- The cell id holds the bytes of a trailer, too.
parse_wifi_lbs-observed_example :
    (let ts = sample_cell ∷ [] in
      let body = observed 432 11 ts 0x24 0x05 0x06 0x07 0x08 0x09 (sample_point ∷ []) in
      (extract_frame (lead false 0 0 0x1A ++ (body ++ (0x0D ∷ 0x0A ∷ 0x78 ∷ [])))
        ≡ frame (framed false 0 0 0x1A body) 30)
      × (parse_wifi_lbs sample_platform body
          ≡ ok (record {
            time = packet_time sample_platform (take 6 body);
            wifi = sighted (sample_point ∷ []);
            cells = ts;
            raw = body;
          })))
unfolding is_wifi_lbs
parse_wifi_lbs-observed_example =
    parse_wifi_lbs-observed 432 11 (sample_cell ∷ []) (omega arith) (omega arith) (omega arith)
      (omega arith) sample_platform 0 0x1A 0x24 0x05 0x06 0x07 0x08 0x09 (sample_point ∷ [])
      (0x78 ∷ []) refl (refl, (refl, (refl, (refl, (refl, (refl, (refl, tt)))))))
      ((refl, refl, omega arith, omega arith), tt)

-- The MAC 01:01:b0:0b:12:34 reads as one cell of the operator 432.
abbrev unlucky_point : Point
unlucky_point = record { m0 = 1; m1 = 1; m2 = 0xB0; m3 = 0x0B; m4 = 0x12; m5 = 0x34; rssi = 0xC8 }

parse_wifi_lbs-mac_as_lbs_example :
    (let block = lbs_block 432 11 (sample_cell ∷ []) in
      let body : Bytes =
        0x24 ∷ 0x05 ∷ 0x06 ∷ 0x07 ∷ 0x08 ∷ 0x09 ∷ (points_bytes (unlucky_point ∷ []) ++ block) in
      parse_wifi_lbs sample_platform body
      ≡ ok (record {
        time = packet_time sample_platform (take 6 body);
        wifi = [];
        cells = parse_cells (points_bytes (unlucky_point ∷ []) ++ block);
        raw = body;
      }))
parse_wifi_lbs-mac_as_lbs_example =
    parse_wifi_lbs-mac_as_lbs sample_platform 0x24 0x05 0x06 0x07 0x08 0x09 unlucky_point
      (lbs_block 432 11 (sample_cell ∷ [])) refl (omega arith)
