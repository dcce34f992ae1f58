-- ===== src/Protocol/WifiLbs/Observed.antt =====
-- Packets with access points before the LBS block, and access points that are taken for one.
use zx909_gw.Prelude.{
  ℕ, ltb, false, le→ltb, ◌+◌, ◌*◌, ◌/◌, ◌%◌, ◌≤◌, ◌<◌, ◌≡◌, refl, ap, ◌∙◌, sym, true, List, [], ◌∷◌,
  ◌++◌, some, arith, length, length-append, append-nil, append_assoc, drop_all, take-append,
  drop-append,
}
use zx909_gw.Bytes.{Bytes}
use zx909_gw.Platform.{Platform}
use zx909_gw.Protocol.Parsed.{ok}
use zx909_gw.Protocol.Lbs.{lbs_header_from, is_lbs_header, find_lbs_header}
use zx909_gw.Protocol.Frame.{
  frame, is_wifi_lbs, content_bounds, lbs_bounds, lbs_bounds_at, wifi_lbs_content_bounds,
  extract_frame,
}
use zx909_gw.Protocol.Frame.Scan.{has_crlf}
use zx909_gw.Protocol.Frame.Cut.{lead, floor, framed}
use zx909_gw.Protocol.Frame.Extract.{content_floor}
use zx909_gw.Protocol.Frame.Stream.{extract_frame-framed}
use zx909_gw.Protocol.WifiLbs.{
  CellTower, wifi_aps, split_at_lbs, parse_cells, packet_time, parse_wifi_lbs,
}
use zx909_gw.Protocol.WifiLbs.Points.{
  Point, points_bytes, sighted, looks_like_lbs, AreUnlike, observed, wifi_aps-points_bytes,
  length-points_bytes, lbs_header_from-passes,
}
use zx909_gw.Protocol.WifiLbs.Cells.{
  AreCells, cells_bytes, lbs_block, length-cells_bytes, length-lbs_block, is_lbs_header-cells,
  cell_size-block, parse_cells-block,
}

module _ (mcc mnc : ℕ) (ts : List CellTower) (c1 : 1 ≤ length ts) (c2 : length ts ≤ 6)
    (m1 : 0 < mcc) (m2 : mcc ≤ 999) where
  find_lbs_header-points :
      (ps : List Point) (rest : Bytes)
      → AreUnlike mcc ts ps
      → find_lbs_header (points_bytes ps ++ (lbs_block mcc mnc ts ++ rest))
        ≡ some (length (points_bytes ps))
  unfolding find_lbs_header
  find_lbs_header-points ps rest u =
      lbs_header_from-passes 0 (points_bytes ps) (length ts) (mcc / 256 % 256) (mcc % 256) mnc
        (cells_bytes ts ++ rest) u (is_lbs_header-cells mcc ts rest c1 c2 m1 m2)
      ∙ ap some (omega arith)

  lbs_bounds-points :
      (i : ℕ) (rest : Bytes)
      → floor (lbs_bounds i (lbs_block mcc mnc ts ++ rest)) ≡ 10 + i + length ts * 7
  unfolding lbs_bounds
  lbs_bounds-points i rest =
      rw (cell_size-block mcc mnc ts c1 c2 m1 m2 rest)
        (ground (arith, length-lbs_block mcc mnc ts rest))

  wifi_lbs_content_bounds-points :
      (d0 d1 d2 d3 d4 d5 : ℕ) (ps : List Point) (rest : Bytes)
      → AreUnlike mcc ts ps
      → wifi_lbs_content_bounds
          (d0 ∷ d1 ∷ d2 ∷ d3 ∷ d4 ∷ d5 ∷ (points_bytes ps ++ (lbs_block mcc mnc ts ++ rest)))
        ≡ lbs_bounds (length (points_bytes ps)) (lbs_block mcc mnc ts ++ rest)
  unfolding wifi_lbs_content_bounds lbs_bounds_at
  wifi_lbs_content_bounds-points d0 d1 d2 d3 d4 d5 ps rest u =
      let xs = points_bytes ps in
      let tail = lbs_block mcc mnc ts ++ rest in
      let long : ltb (length (d0 ∷ d1 ∷ d2 ∷ d3 ∷ d4 ∷ d5 ∷ (xs ++ tail))) 6 ≡ false =
        le→ltb _ _ (omega arith) in
      rw (long, find_lbs_header-points ps rest u)
        (ap (lbs_bounds (length xs)) (drop-append xs tail))

  parse_wifi_lbs-points :
      (P : Platform) (d0 d1 d2 d3 d4 d5 : ℕ) (ps : List Point)
      → AreUnlike mcc ts ps
      → AreCells mcc mnc ts
      → (let body : Bytes =
            d0 ∷ d1 ∷ d2 ∷ d3 ∷ d4 ∷ d5 ∷ (points_bytes ps ++ lbs_block mcc mnc ts) in
          parse_wifi_lbs P body
          ≡ ok (record {
            time = packet_time P (d0 ∷ d1 ∷ d2 ∷ d3 ∷ d4 ∷ d5 ∷ []);
            wifi = sighted ps;
            cells = ts;
            raw = body;
          }))
  unfolding parse_wifi_lbs packet_time split_at_lbs
  parse_wifi_lbs-points P d0 d1 d2 d3 d4 d5 ps u h =
      let xs = points_bytes ps in
      let block = lbs_block mcc mnc ts in
      let found : find_lbs_header (xs ++ block) ≡ some (length xs) =
        ap (λ b. find_lbs_header (xs ++ b)) (sym (append-nil block))
        ∙ find_lbs_header-points ps [] u in
      let long : ltb (length (d0 ∷ d1 ∷ d2 ∷ d3 ∷ d4 ∷ d5 ∷ (xs ++ block))) 6 ≡ false =
        le→ltb _ _ (omega arith) in
      rw
        (
          found,
          long,
          take-append xs block,
          drop-append xs block,
          parse_cells-block mcc mnc ts c1 c2 m1 m2 h,
          wifi_aps-points_bytes ps,
        )
        refl

  content_floor-points :
      (p d0 d1 d2 d3 d4 d5 : ℕ) (ps : List Point) (rest : Bytes)
      → is_wifi_lbs p ≡ true
      → AreUnlike mcc ts ps
      → content_floor p
          (d0 ∷ d1 ∷ d2 ∷ d3 ∷ d4 ∷ d5 ∷ (points_bytes ps ++ (lbs_block mcc mnc ts ++ rest)))
        ≡ 10 + 7 * length ps + length ts * 7
  unfolding content_bounds
  content_floor-points p d0 d1 d2 d3 d4 d5 ps rest w u = ground (
    arith,
    wifi_lbs_content_bounds-points d0 d1 d2 d3 d4 d5 ps rest u,
    lbs_bounds-points (length (points_bytes ps)) rest,
    length-points_bytes ps,
  )

  pub length-observed :
      (d0 d1 d2 d3 d4 d5 : ℕ) (ps : List Point)
      → length (observed mcc mnc ts d0 d1 d2 d3 d4 d5 ps) ≡ 10 + 7 * length ps + length ts * 7
  length-observed d0 d1 d2 d3 d4 d5 ps = omega (
    arith,
    length-append (points_bytes ps) (lbs_block mcc mnc ts),
    length-points_bytes ps,
    length-cells_bytes ts,
  )

  pub extract_frame-points :
      (l p d0 d1 d2 d3 d4 d5 : ℕ) (ps : List Point) (rest : Bytes)
      → is_wifi_lbs p ≡ true
      → AreUnlike mcc ts ps
      → (let body = observed mcc mnc ts d0 d1 d2 d3 d4 d5 ps in
          extract_frame (lead false l 0 p ++ (body ++ (0x0D ∷ 0x0A ∷ rest)))
          ≡ frame (framed false l 0 p body) (16 + 7 * length ps + length ts * 7))
  extract_frame-points l p d0 d1 d2 d3 d4 d5 ps rest w u =
      let body = observed mcc mnc ts d0 d1 d2 d3 d4 d5 ps in
      let tail : Bytes = 0x0D ∷ 0x0A ∷ rest in
      let regroup =
        ap (λ xs. d0 ∷ d1 ∷ d2 ∷ d3 ∷ d4 ∷ d5 ∷ xs)
          (append_assoc (points_bytes ps) (lbs_block mcc mnc ts) tail) in
      let e : content_floor p (body ++ tail) ≡ length body =
        ap (content_floor p) regroup
        ∙ content_floor-points p d0 d1 d2 d3 d4 d5 ps tail w u
        ∙ sym (length-observed d0 d1 d2 d3 d4 d5 ps) in
      extract_frame-framed false l 0 p body rest (omega (arith, e))
        (ap has_crlf (drop_all _ body (omega (arith, e))))
      ∙ ap (frame (framed false l 0 p body)) (omega (arith, length-observed d0 d1 d2 d3 d4 d5 ps))

  -- A short Wi-Fi / LBS packet with any number of access points and an LBS block of one to six cells of
  -- seven bytes (LAC below 2 ^ 16, cell id below 2 ^ 32) of an operator with MCC from 1 to 999, in
  -- which no three bytes in a row of the access points, and of them and the start of the block, are
  -- like a count from 1 to 6 and an MCC from 1 to 999, is cut whole out of the stream whatever bytes
  -- follow it, trailers inside included, and the parser gives exactly these access points and cells,
  -- and the time of the first six bytes.
  pub parse_wifi_lbs-observed :
      (P : Platform) (l p d0 d1 d2 d3 d4 d5 : ℕ) (ps : List Point) (rest : Bytes)
      → is_wifi_lbs p ≡ true
      → AreUnlike mcc ts ps
      → AreCells mcc mnc ts
      → (let body = observed mcc mnc ts d0 d1 d2 d3 d4 d5 ps in
          (extract_frame (lead false l 0 p ++ (body ++ (0x0D ∷ 0x0A ∷ rest)))
            ≡ frame (framed false l 0 p body) (16 + 7 * length ps + length ts * 7))
          × (parse_wifi_lbs P body
              ≡ ok (record {
                time = packet_time P (d0 ∷ d1 ∷ d2 ∷ d3 ∷ d4 ∷ d5 ∷ []);
                wifi = sighted ps;
                cells = ts;
                raw = body;
              })))
  parse_wifi_lbs-observed P l p d0 d1 d2 d3 d4 d5 ps rest w u h = (
    extract_frame-points l p d0 d1 d2 d3 d4 d5 ps rest w u,
    parse_wifi_lbs-points P d0 d1 d2 d3 d4 d5 ps u h,
  )

-- If the first three bytes of the MAC of the first access point are like a count from 1 to 6 and an
-- MCC from 1 to 999, and enough bytes follow for that many cells of six bytes, the parser gives no
-- access point at all, and the cells that it reads from the first access point on.
pub parse_wifi_lbs-mac_as_lbs :
    (P : Platform) (d0 d1 d2 d3 d4 d5 : ℕ) (p : Point) (rest : Bytes)
    → looks_like_lbs p.m0 p.m1 p.m2 ≡ true
    → p.m0 * 6 ≤ 3 + length rest
    → (let body : Bytes = d0 ∷ d1 ∷ d2 ∷ d3 ∷ d4 ∷ d5 ∷ (points_bytes (p ∷ []) ++ rest) in
        parse_wifi_lbs P body
        ≡ ok (record {
          time = packet_time P (d0 ∷ d1 ∷ d2 ∷ d3 ∷ d4 ∷ d5 ∷ []);
          wifi = [];
          cells = parse_cells (points_bytes (p ∷ []) ++ rest);
          raw = body;
        }))
unfolding parse_wifi_lbs packet_time split_at_lbs wifi_aps find_lbs_header lbs_header_from
parse_wifi_lbs-mac_as_lbs P d0 d1 d2 d3 d4 d5 p rest like long =
    let is_header : is_lbs_header p.m0 p.m1 p.m2 (p.m4 ∷ p.m5 ∷ p.rssi ∷ rest) ≡ true =
      unfold is_lbs_header in ground arith in
    let whole : ltb (length (d0 ∷ d1 ∷ d2 ∷ d3 ∷ d4 ∷ d5 ∷ (points_bytes (p ∷ []) ++ rest))) 6
        ≡ false =
      le→ltb _ _ (omega arith) in
    rw (is_header, whole) refl
