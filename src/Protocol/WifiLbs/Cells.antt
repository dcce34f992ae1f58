-- ===== src/Protocol/WifiLbs/Cells.antt =====
-- Packets with an LBS block of seven-byte cells: cut whole out of the stream and read back.
use zx909_gw.Prelude.{
  ℕ, ltb, false, le→ltb, ◌+◌, ◌*◌, ◌/◌, ◌%◌, ◌≤◌, ◌<◌, ◌≡◌, refl, ap, ◌∙◌, sym, true, false, List,
  [], ◌∷◌, ◌++◌, some, arith, leb, length, length-append, append-nil, drop_all,
}
use zx909_gw.Bytes.{Bytes, be16, put16, put32}
use zx909_gw.Platform.{Platform}
use zx909_gw.Protocol.Parsed.{ok}
use zx909_gw.Protocol.Lbs.{lbs_header_from, is_lbs_header, find_lbs_header, cell_size}
use zx909_gw.Protocol.Frame.{
  frame, is_wifi_lbs, content_bounds, lbs_bounds, lbs_bounds_at, wifi_lbs_content_bounds,
  extract_frame,
}
use zx909_gw.Protocol.Frame.Scan.{has_crlf}
use zx909_gw.Protocol.Frame.Cut.{lead, floor, framed}
use zx909_gw.Protocol.Frame.Extract.{content_floor}
use zx909_gw.Protocol.Frame.Stream.{extract_frame-framed}
use zx909_gw.Protocol.WifiLbs.{
  CellTower, cell_at, cells_from, parse_cell_size, parse_cells, packet_time, parse_wifi_lbs,
}

-- Seven bytes: LAC, cell id, signal.
abbrev pub cell_bytes : CellTower → Bytes
cell_bytes t = put16 t.lac ++ (put32 t.cell_id ++ (t.signal ∷ []))

abbrev pub cells_bytes : List CellTower → Bytes
cells_bytes [] = []
cells_bytes (t ∷ ts) = cell_bytes t ++ cells_bytes ts

-- Each cell is of the operator `mcc`, `mnc`, and its numbers fit their bytes.
abbrev pub AreCells : ℕ → ℕ → List CellTower → Type 0
AreCells mcc mnc [] = Unit {0}
AreCells mcc mnc (t ∷ ts) =
    ((t.mcc ≡ mcc) × (t.mnc ≡ mnc) × (t.lac < 65536) × (t.cell_id < 4294967296))
    × AreCells mcc mnc ts

pub length-cells_bytes : (ts : List CellTower) → length (cells_bytes ts) ≡ length ts * 7
length-cells_bytes [] = refl
length-cells_bytes (t ∷ ts) = omega (arith, length-cells_bytes ts)

cell_at-cell_bytes :
    (mcc mnc : ℕ) (t : CellTower) (rest : Bytes)
    → (t.mcc ≡ mcc) × (t.mnc ≡ mnc) × (t.lac < 65536) × (t.cell_id < 4294967296)
    → cell_at mcc mnc 7 (cell_bytes t ++ rest) ≡ t
unfolding cell_at
cell_at-cell_bytes mcc mnc t rest h = ground arith

-- The loop reads back the cells that were written, whatever follows them.
pub cells_from-cells_bytes :
    (mcc mnc : ℕ) (ts : List CellTower) (rest : Bytes)
    → AreCells mcc mnc ts
    → cells_from mcc mnc 7 (length ts) (cells_bytes ts ++ rest) ≡ ts
unfolding cells_from
cells_from-cells_bytes mcc mnc [] rest h = refl
cells_from-cells_bytes mcc mnc (t ∷ ts) rest h = ground (
  arith,
  cell_at-cell_bytes mcc mnc t (cells_bytes ts ++ rest) h.0,
  cells_from-cells_bytes mcc mnc ts rest h.1,
)

-- The LBS block: count, MCC, MNC, cells.
abbrev pub lbs_block : ℕ → ℕ → List CellTower → Bytes
lbs_block mcc mnc ts = length ts ∷ mcc / 256 % 256 ∷ mcc % 256 ∷ mnc ∷ cells_bytes ts

pub be16-split : (v : ℕ) → v ≤ 999 → be16 (v / 256 % 256) (v % 256) ≡ v
be16-split v h = omega arith

pub length-lbs_block :
    (mcc mnc : ℕ) (ts : List CellTower) (rest : Bytes)
    → length (lbs_block mcc mnc ts ++ rest) ≡ 4 + length ts * 7 + length rest
length-lbs_block mcc mnc ts rest =
    ground (arith, length-append (cells_bytes ts) rest, length-cells_bytes ts)

pub is_lbs_header-cells :
    (mcc : ℕ) (ts : List CellTower) (rest : Bytes)
    → 1 ≤ length ts
    → length ts ≤ 6
    → 0 < mcc
    → mcc ≤ 999
    → is_lbs_header (length ts) (mcc / 256 % 256) (mcc % 256) (cells_bytes ts ++ rest) ≡ true
unfolding is_lbs_header
is_lbs_header-cells mcc ts rest c1 c2 m1 m2 =
    rw (be16-split mcc m2, length-append (cells_bytes ts) rest, length-cells_bytes ts)
      (ground arith)

module _ (mcc mnc : ℕ) (ts : List CellTower) (c1 : 1 ≤ length ts) (c2 : length ts ≤ 6)
    (m1 : 0 < mcc) (m2 : mcc ≤ 999) where
  find_lbs_header-block : (rest : Bytes) → find_lbs_header (lbs_block mcc mnc ts ++ rest) ≡ some 0
  unfolding find_lbs_header lbs_header_from
  find_lbs_header-block rest = rw (is_lbs_header-cells mcc ts rest c1 c2 m1 m2)

  pub cell_size-block : (rest : Bytes) → cell_size (length ts) (lbs_block mcc mnc ts ++ rest) ≡ 7
  unfolding cell_size
  cell_size-block rest = ground (arith, length-lbs_block mcc mnc ts rest)

  lbs_bounds-block :
      (rest : Bytes) → floor (lbs_bounds 0 (lbs_block mcc mnc ts ++ rest)) ≡ 10 + length ts * 7
  unfolding lbs_bounds
  lbs_bounds-block rest =
      rw (cell_size-block rest) (ground (arith, length-lbs_block mcc mnc ts rest))

  parse_cell_size-block : parse_cell_size (length ts) (lbs_block mcc mnc ts) ≡ 7
  unfolding parse_cell_size
  parse_cell_size-block = ground (arith, length-cells_bytes ts)

  pub parse_cells-block : AreCells mcc mnc ts → parse_cells (lbs_block mcc mnc ts) ≡ ts
  unfolding parse_cells
  parse_cells-block h =
      let long : leb 4 (length (lbs_block mcc mnc ts)) ≡ true = ground arith in
      rw (be16-split mcc m2, parse_cell_size-block, long)
        (ap (cells_from mcc mnc 7 (length ts)) (sym (append-nil (cells_bytes ts)))
          ∙ cells_from-cells_bytes mcc mnc ts [] h)

  wifi_lbs_content_bounds-block :
      (d0 d1 d2 d3 d4 d5 : ℕ) (rest : Bytes)
      → wifi_lbs_content_bounds (d0 ∷ d1 ∷ d2 ∷ d3 ∷ d4 ∷ d5 ∷ (lbs_block mcc mnc ts ++ rest))
        ≡ lbs_bounds 0 (lbs_block mcc mnc ts ++ rest)
  unfolding wifi_lbs_content_bounds lbs_bounds_at
  wifi_lbs_content_bounds-block d0 d1 d2 d3 d4 d5 rest =
      rw (find_lbs_header-block rest) (ground arith)

  content_floor-block :
      (p d0 d1 d2 d3 d4 d5 : ℕ) (rest : Bytes)
      → is_wifi_lbs p ≡ true
      → content_floor p (d0 ∷ d1 ∷ d2 ∷ d3 ∷ d4 ∷ d5 ∷ (lbs_block mcc mnc ts ++ rest))
        ≡ 10 + length ts * 7
  unfolding content_bounds
  content_floor-block p d0 d1 d2 d3 d4 d5 rest w =
      ground (arith, wifi_lbs_content_bounds-block d0 d1 d2 d3 d4 d5 rest, lbs_bounds-block rest)

  extract_frame-cells :
      (l p d0 d1 d2 d3 d4 d5 : ℕ) (rest : Bytes)
      → is_wifi_lbs p ≡ true
      → extract_frame (
          lead false l 0 p
          ++ ((d0 ∷ d1 ∷ d2 ∷ d3 ∷ d4 ∷ d5 ∷ lbs_block mcc mnc ts) ++ (0x0D ∷ 0x0A ∷ rest)))
        ≡ frame
            (framed false l 0 p (d0 ∷ d1 ∷ d2 ∷ d3 ∷ d4 ∷ d5 ∷ lbs_block mcc mnc ts))
            (16 + length ts * 7)
  extract_frame-cells l p d0 d1 d2 d3 d4 d5 rest w =
      let e = content_floor-block p d0 d1 d2 d3 d4 d5 (0x0D ∷ 0x0A ∷ rest) w in
      extract_frame-framed false l 0 p (d0 ∷ d1 ∷ d2 ∷ d3 ∷ d4 ∷ d5 ∷ lbs_block mcc mnc ts) rest
        (omega (arith, e, length-cells_bytes ts))
        (ap has_crlf (
          drop_all _ (d0 ∷ d1 ∷ d2 ∷ d3 ∷ d4 ∷ d5 ∷ lbs_block mcc mnc ts)
            (omega (arith, e, length-cells_bytes ts))))
      ∙ ap (frame (framed false l 0 p (d0 ∷ d1 ∷ d2 ∷ d3 ∷ d4 ∷ d5 ∷ lbs_block mcc mnc ts)))
          (omega (arith, length-cells_bytes ts))

  parse_wifi_lbs-cells :
      (P : Platform) (d0 d1 d2 d3 d4 d5 : ℕ)
      → AreCells mcc mnc ts
      → parse_wifi_lbs P (d0 ∷ d1 ∷ d2 ∷ d3 ∷ d4 ∷ d5 ∷ lbs_block mcc mnc ts)
        ≡ ok (record {
          time = packet_time P (d0 ∷ d1 ∷ d2 ∷ d3 ∷ d4 ∷ d5 ∷ []);
          wifi = [];
          cells = ts;
          raw = d0 ∷ d1 ∷ d2 ∷ d3 ∷ d4 ∷ d5 ∷ lbs_block mcc mnc ts;
        })
  unfolding parse_wifi_lbs packet_time
  parse_wifi_lbs-cells P d0 d1 d2 d3 d4 d5 h =
      let found : find_lbs_header (lbs_block mcc mnc ts) ≡ some 0 =
        ap find_lbs_header (sym (append-nil (lbs_block mcc mnc ts))) ∙ find_lbs_header-block [] in
      let long : ltb (length (d0 ∷ d1 ∷ d2 ∷ d3 ∷ d4 ∷ d5 ∷ lbs_block mcc mnc ts)) 6 ≡ false =
        le→ltb _ _ (omega arith) in
      rw (found, parse_cells-block h, long)

  -- A short Wi-Fi / LBS packet without access points, whose LBS block holds one to six cells of
  -- seven bytes (LAC below 2 ^ 16, cell id below 2 ^ 32) of an operator with MCC from 1 to 999, is
  -- cut whole out of the stream whatever bytes follow it, trailers inside the cells included, and
  -- the parser gives exactly these cells, no access point, and the time of the first six bytes.
  pub parse_wifi_lbs-extract_frame :
      (P : Platform) (l p d0 d1 d2 d3 d4 d5 : ℕ) (rest : Bytes)
      → is_wifi_lbs p ≡ true
      → AreCells mcc mnc ts
      → (let body : Bytes = d0 ∷ d1 ∷ d2 ∷ d3 ∷ d4 ∷ d5 ∷ lbs_block mcc mnc ts in
          (extract_frame (lead false l 0 p ++ (body ++ (0x0D ∷ 0x0A ∷ rest)))
            ≡ frame (framed false l 0 p body) (16 + length ts * 7))
          × (parse_wifi_lbs P body
              ≡ ok (record {
                time = packet_time P (d0 ∷ d1 ∷ d2 ∷ d3 ∷ d4 ∷ d5 ∷ []);
                wifi = [];
                cells = ts;
                raw = body;
              })))
  parse_wifi_lbs-extract_frame P l p d0 d1 d2 d3 d4 d5 rest w h =
      (extract_frame-cells l p d0 d1 d2 d3 d4 d5 rest w, parse_wifi_lbs-cells P d0 d1 d2 d3 d4 d5 h)
