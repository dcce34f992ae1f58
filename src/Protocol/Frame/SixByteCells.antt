-- ===== src/Protocol/Frame/SixByteCells.antt =====
-- Wi-Fi / LBS packets with cells of six bytes, which wifiLBSContentBounds means to support.
use zx909_gw.Prelude.{
  ℕ, ◌+◌, ◌*◌, ◌≤◌, ◌<◌, ◌≡◌, ◌∙◌, true, false, ◌∷◌, ◌++◌, some, arith, ltb, lt→ltb, length,
  length-append,
}
use zx909_gw.Bytes.{Bytes, be16, crlf}
use zx909_gw.Protocol.Lbs.{find_lbs_header, cell_size}
use zx909_gw.Protocol.Frame.{
  fault, incomplete, content_bounds, is_wifi_lbs, lbs_bounds, wifi_lbs_content_bounds,
  extract_frame, cut_by_trailer,
}
use zx909_gw.Protocol.Frame.Cut.{lead, floor}
use zx909_gw.Protocol.Frame.Extract.{content_floor, extract_frame-lead}

-- A datetime, an LBS header and the cells, up to the trailer.
abbrev pub lbs_content : (d0 d1 d2 d3 d4 d5 count hi lo mnc : ℕ) → Bytes → Bytes
lbs_content d0 d1 d2 d3 d4 d5 count hi lo mnc cells =
    d0 ∷ d1 ∷ d2 ∷ d3 ∷ d4 ∷ d5 ∷ count ∷ hi ∷ lo ∷ mnc ∷ (cells ++ crlf)

module _ (d0 d1 d2 d3 d4 d5 count hi lo mnc : ℕ) (cells : Bytes) (c1 : 1 ≤ count) (c2 : count ≤ 2)
    (m1 : 0 < be16 hi lo) (m2 : be16 hi lo ≤ 999) (size : length cells ≡ count * 6) where
  find_lbs_header-front : find_lbs_header (count ∷ hi ∷ lo ∷ mnc ∷ (cells ++ crlf)) ≡ some 0
  unfolding find_lbs_header
  find_lbs_header-front = ground (arith, length-append cells crlf)

  cell_size-front : cell_size count (count ∷ hi ∷ lo ∷ mnc ∷ (cells ++ crlf)) ≡ 7
  unfolding cell_size
  cell_size-front = ground (arith, length-append cells crlf)

  lbs_bounds-front : 10 + count * 7 ≤ floor (lbs_bounds 0 (count ∷ hi ∷ lo ∷ mnc ∷ (cells ++ crlf)))
  unfolding lbs_bounds
  lbs_bounds-front = ground (arith, cell_size-front)

  wifi_lbs_content_bounds-front :
      wifi_lbs_content_bounds (lbs_content d0 d1 d2 d3 d4 d5 count hi lo mnc cells)
      ≡ lbs_bounds 0 (count ∷ hi ∷ lo ∷ mnc ∷ (cells ++ crlf))
  wifi_lbs_content_bounds-front =
      unfold wifi_lbs_content_bounds in ground (arith, find_lbs_header-front)

  content_floor-front :
      (p : ℕ)
      → is_wifi_lbs p ≡ true
      → 10 + count * 7 ≤ content_floor p (lbs_content d0 d1 d2 d3 d4 d5 count hi lo mnc cells)
  unfolding content_bounds
  content_floor-front p w = ground (arith, wifi_lbs_content_bounds-front, lbs_bounds-front)

  waits-front :
      (l p : ℕ)
      → is_wifi_lbs p ≡ true
      → ltb
          (length (lbs_content d0 d1 d2 d3 d4 d5 count hi lo mnc cells))
          (content_floor p (lbs_content d0 d1 d2 d3 d4 d5 count hi lo mnc cells) + 2)
        ≡ true
  waits-front l p w = lt→ltb _ _ (omega (arith, content_floor-front p w, length-append cells crlf))

  -- A buffer that holds a whole short Wi-Fi / LBS packet without access points, with one or two cells
  -- of six bytes and an MCC from 1 to 999, gives no frame: the trailer counts as cell bytes, cells of
  -- seven bytes are taken to fit, and the gateway waits for more.
  pub extract_frame-six_byte_cells :
      (l p : ℕ)
      → is_wifi_lbs p ≡ true
      → extract_frame (lead false l 0 p ++ lbs_content d0 d1 d2 d3 d4 d5 count hi lo mnc cells)
        ≡ fault incomplete 0
  extract_frame-six_byte_cells l p w =
      extract_frame-lead false l 0 p d0 _ ∙ unfold cut_by_trailer in rw (waits-front l p w)
