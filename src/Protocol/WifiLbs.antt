-- ===== src/Protocol/WifiLbs.antt =====
-- internal/protocol/wifilbs.go: access points and cells of a Wi-Fi / LBS body.
pub mod Cells
pub mod Points
pub mod Observed
pub mod Clock
use zx909_gw.Prelude.{
  ℕ, zero, suc, ◌+◌, ◌*◌, ◌/◌, ◌%◌, Bool, ◌&&◌, ◌||◌, List, [], ◌∷◌, ◌++◌, Option, none, some, ltb,
  leb, ◌==◌, if◌then◌else◌, length, take, drop,
}
use zx909_gw.Prelude.Int.{ℤ, pos, negsuc, ltb_ℤ, pos_part}
use zx909_gw.Bytes.{Bytes, at, be16, be32}
use zx909_gw.Platform.{Platform}
use zx909_gw.Protocol.Parsed.{Parsed, ok, err, too_short}
use zx909_gw.Protocol.Lbs.{find_lbs_header}

pub record WifiAp : Type 0 where
  pub mac : Bytes
  pub rssi : ℕ

pub record CellTower : Type 0 where
  pub mcc : ℕ
  pub mnc : ℕ
  pub lac : ℕ
  pub cell_id : ℕ
  pub signal : ℕ

-- `bcdByte`, with its -1 for a nibble above 9.
unfoldable pub bcd_byte : ℕ → ℤ
bcd_byte b =
    let hi = b / 16 in
    let lo = b % 16 in if ltb 9 hi || ltb 9 lo then negsuc 0 else pos (hi * 10 + lo)

-- One digit of `%02x`.
abbrev hex_digit : ℕ → ℕ
hex_digit n = if ltb n 10 then b'0' + n else 87 + n

-- `formatMAC`: two hexadecimal digits for each byte, joined by `:`.
unfoldable pub format_mac : Bytes → Bytes
format_mac [] = []
format_mac (b ∷ []) = hex_digit (b / 16) ∷ hex_digit (b % 16) ∷ []
format_mac (b ∷ c ∷ bs) = hex_digit (b / 16) ∷ hex_digit (b % 16) ∷ b':' ∷ format_mac (c ∷ bs)

-- The loop over the Wi-Fi bytes, seven at a time.
unfoldable pub wifi_aps : Bytes → List WifiAp
unfolding format_mac
wifi_aps (a ∷ b ∷ c ∷ d ∷ e ∷ f ∷ rssi ∷ rest) =
    record { mac = format_mac (a ∷ b ∷ c ∷ d ∷ e ∷ f ∷ []); rssi = rssi } ∷ wifi_aps rest
wifi_aps _ = []

-- One cell: LAC (2), cell id (4 or 3), signal (1).
unfoldable pub cell_at : ℕ → ℕ → ℕ → Bytes → CellTower
cell_at mcc mnc size xs = record {
  mcc = mcc;
  mnc = mnc;
  lac = be16 (at xs 0) (at xs 1);
  cell_id =
      if size == 7
      then be32 (at xs 2) (at xs 3) (at xs 4) (at xs 5)
      else be32 0 (at xs 2) (at xs 3) (at xs 4);
  signal = if size == 7 then at xs 6 else at xs 5;
}

-- The loop over the cells: at most `count`, while `size` bytes are left; the list is `lbsBytes[pos:]`.
unfoldable pub cells_from : ℕ → ℕ → ℕ → ℕ → Bytes → List CellTower
unfolding cell_at
cells_from mcc mnc size zero xs = []
cells_from mcc mnc size (suc count) xs =
    let later = cells_from mcc mnc size count (drop size xs) in
    if leb size (length xs) then cell_at mcc mnc size xs ∷ later else []

-- The choice of the cell size in `ParseWifiLBS`, which also asks for a count above 0.
unfoldable pub parse_cell_size : ℕ → Bytes → ℕ
parse_cell_size count lbs =
    if ltb 0 count && (ltb (length lbs) (4 + count * 7) && leb (4 + count * 6) (length lbs))
    then 6
    else 7

unfoldable pub parse_cells : Bytes → List CellTower
unfolding cells_from parse_cell_size
parse_cells lbs =
    let count = at lbs 0 in
    if leb 4 (length lbs)
    then cells_from (be16 (at lbs 1) (at lbs 2)) (at lbs 3) (parse_cell_size count lbs) count
        (drop 4 lbs)
    else []

-- The bytes before and from the LBS header on.
unfoldable pub split_at_lbs : Option ℕ → Bytes → Bytes × Bytes
split_at_lbs none rest = (rest, [])
split_at_lbs (some i) rest = (take i rest, drop i rest)

module _ (P : Platform) where
  open P use {Time, date}

  pub record WifiLbs : Type 0 where
    pub time : Time
    pub wifi : List WifiAp
    pub cells : List CellTower
    pub raw : Bytes

  -- The test that sends a BCD date to the binary reading.
  unfoldable pub is_bad_bcd : ℤ → ℤ → ℤ → ℤ → ℤ → ℤ → Bool
  is_bad_bcd yy mm dd hh mi ss =
      ltb_ℤ yy (pos 0)
      || (ltb_ℤ mm (pos 1)
          || (ltb_ℤ (pos 12) mm
              || (ltb_ℤ dd (pos 1)
                  || (ltb_ℤ (pos 31) dd
                      || (ltb_ℤ (pos 23) hh || (ltb_ℤ (pos 59) mi || ltb_ℤ (pos 59) ss))))))

  unfoldable pub packet_time : Bytes → Time
  unfolding is_bad_bcd bcd_byte
  packet_time body =
      let yy = bcd_byte (at body 0) in
      let mm = bcd_byte (at body 1) in
      let dd = bcd_byte (at body 2) in
      let hh = bcd_byte (at body 3) in
      let mi = bcd_byte (at body 4) in
      let ss = bcd_byte (at body 5) in
      if is_bad_bcd yy mm dd hh mi ss
      then date (pos (2000 + at body 0)) (pos (at body 1)) (pos (at body 2)) (pos (at body 3))
          (pos (at body 4)) (pos (at body 5))
      else date (pos (2000 + pos_part yy)) mm dd hh mi ss

  unfoldable pub parse_wifi_lbs : Bytes → Parsed WifiLbs
  unfolding packet_time wifi_aps parse_cells split_at_lbs find_lbs_header
  parse_wifi_lbs body =
      let rest = drop 6 body in
      let parts = split_at_lbs (find_lbs_header rest) rest in
      if ltb (length body) 6
      then err (too_short (length body))
      else ok (record {
        time = packet_time body;
        wifi = wifi_aps parts.0;
        cells = parse_cells parts.1;
        raw = body;
      })
