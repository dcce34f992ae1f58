-- ===== src/Protocol/Frame.antt =====
-- internal/protocol/frame.go: the frame type, the content bounds and `ExtractFrame`.
-- An index of -1 in the source is `none` here.
pub mod Scan
pub mod Cut
pub mod Extract
pub mod SixByteCells
pub mod Sound
pub mod Stream
use zx909_gw.Prelude.{
  ℕ, suc, ◌+◌, ◌-◌, ◌*◌, Bool, true, false, not, ◌&&◌, ◌||◌, ◌∷◌, Option, none, some, ltb, ◌==◌,
  if◌then◌else◌, length, take, drop,
}
use zx909_gw.Prelude.{zero}
use zx909_gw.Bytes.{Bytes, at, be16}
use zx909_gw.Protocol.Lbs.{find_lbs_header, cell_size}

-- `ErrIncomplete` and the other error values.
pub data FrameError : Type 0 where
  incomplete bad_header bad_trailer bad_crc bad_length : FrameError

abbrev pub header_short : ℕ
header_short = 0x7878

abbrev pub header_ext : ℕ
header_ext = 0x7979

pub record Frame : Type 0 where
  pub proto : ℕ
  pub body : Bytes
  pub serial : ℕ
  pub raw : Bytes

-- `(*Frame, int, error)`: a frame or an error, each with the number of bytes consumed.
pub data Extracted : Type 0 where
  frame : Frame → ℕ → Extracted
  fault : FrameError → ℕ → Extracted

-- The loop that looks for `78 78` or `79 79`.
unfoldable pub find_start : Bytes → Option ℕ
find_start (a ∷ b ∷ rest) =
    let later = find_start (b ∷ rest) in
    if a == 0x78 && b == 0x78
    then some 0
    else if a == 0x79 && b == 0x79
    then some 0
    else elim later [ none ↦ none | some i ↦ some (suc i) ]
find_start _ = none

-- The loop of `findTrailer` from index `i`; the list is `content[i:]`.
unfoldable pub trailer_from : ℕ → Bytes → Option ℕ
trailer_from i (a ∷ b ∷ rest) =
    if a == 0x0D && b == 0x0A then some (i + 2) else trailer_from (i + 1) (b ∷ rest)
trailer_from i _ = none

unfoldable pub find_trailer : Bytes → ℕ → Option ℕ
find_trailer content min_content = trailer_from min_content (drop min_content content)

-- `(min, exact, known)`.
pub record Bounds : Type 0 where
  pub min : ℕ
  pub exact : Option ℕ
  pub known : Bool

abbrev pub at_least : ℕ → Bounds
at_least n = record { min = n; exact = none; known = true }

-- The last part of `wifiLBSContentBounds`: `start` is the index of the LBS block in the rest.
unfoldable pub lbs_bounds : ℕ → Bytes → Bounds
lbs_bounds start lbs =
    let count = at lbs 0 in
    let need = 4 + count * cell_size count lbs in
    if ltb (length lbs) 4
    then at_least 6
    else if ltb count 1 || ltb 6 count
    then at_least 6
    else if ltb (length lbs) need
    then at_least (6 + start + need)
    else record { min = 6; exact = some (6 + start + need); known = true }

unfoldable pub lbs_bounds_at : Option ℕ → Bytes → Bounds
lbs_bounds_at none rest = at_least 6
lbs_bounds_at (some start) rest = lbs_bounds start (drop start rest)

unfoldable pub wifi_lbs_content_bounds : Bytes → Bounds
unfolding lbs_bounds_at lbs_bounds cell_size find_lbs_header
wifi_lbs_content_bounds content =
    if ltb (length content) 6
    then at_least 6
    else let rest = drop 6 content in lbs_bounds_at (find_lbs_header rest) rest

-- The protocol numbers of the two families that `contentBounds` and the dispatch treat as one.
unfoldable pub is_gps : ℕ → Bool
is_gps p = p == 0x10 || (p == 0x11 || (p == 0x12 || p == 0x22))

unfoldable pub is_wifi_lbs : ℕ → Bool
is_wifi_lbs p = p == 0x1A || (p == 0x1B || (p == 0x17 || p == 0x69))

unfoldable pub content_bounds : ℕ → Bytes → Bounds
unfolding is_gps is_wifi_lbs
content_bounds p content =
    if p == 0x01
    then at_least 9
    else if p == 0x30
    then at_least 0
    else if p == 0x13
    then at_least 4
    else if is_gps p
    then at_least 18
    else if is_wifi_lbs p
    then wifi_lbs_content_bounds content
    else if p == 0xB3
    then at_least 1
    else if p == 0x57
    then at_least 0
    else record { min = 0; exact = none; known = false }

-- `splitBodyAndSerial` copies the content and gives the serial 0.
unfoldable pub split_body_and_serial : Bytes → Bytes × ℕ
split_body_and_serial content = (content, 0)

-- `raw[from : to]`.
abbrev pub slice : ℕ → ℕ → Bytes → Bytes
slice from to raw = drop from (take to raw)

unfoldable pub frame_from_raw : Bytes → ℕ → Extracted
unfolding split_body_and_serial
frame_from_raw raw header =
    let end = length raw in
    let short = split_body_and_serial (slice 4 (end - 2) raw) in
    let ext = split_body_and_serial (slice 5 (end - 2) raw) in
    if ltb end 5
    then fault bad_length end
    else if header == header_short
    then frame (record { proto = at raw 3; body = short.0; serial = short.1; raw = raw }) end
    else if header == header_ext
    then (if ltb end 6
        then fault bad_length end
        else frame (record { proto = at raw 4; body = ext.0; serial = ext.1; raw = raw }) end)
    else fault bad_header end

-- From `if !known` on.
unfoldable pub cut_by_trailer : ℕ → ℕ → Bytes → ℕ → Extracted
cut_by_trailer header prefix buf min_content =
    let content = drop prefix buf in
    if ltb (length content) (min_content + 2)
    then fault incomplete 0
    else elim (find_trailer content min_content) [
      | none ↦ fault incomplete 0
      | some rel_end ↦ frame_from_raw (take (prefix + rel_end) buf) header
    ]

-- `if known && exact >= 0`; both fallbacks go on to the search for a trailer.
unfoldable pub cut_by_bounds : ℕ → ℕ → Bytes → Bounds → Extracted
unfolding cut_by_trailer
cut_by_bounds header prefix buf b =
    let content = drop prefix buf in
    if b.known
    then elim b.exact [
      | none ↦ cut_by_trailer header prefix buf b.min
      | some exact ↦
          if ltb (length content) (exact + 2)
          then fault incomplete 0
          else if not (at content exact == 0x0D) || not (at content (exact + 1) == 0x0A)
          then cut_by_trailer header prefix buf exact
          else frame_from_raw (take (prefix + exact + 2) buf) header
    ]
    else cut_by_trailer header prefix buf 0

unfoldable pub cut_frame : ℕ → ℕ → ℕ → Bytes → Extracted
unfolding cut_by_bounds
cut_frame header prefix proto buf =
    cut_by_bounds header prefix buf (content_bounds proto (drop prefix buf))

-- The switch on the header, for a buffer that starts with one.
unfoldable pub extract_at_start : Bytes → Extracted
unfolding cut_frame
extract_at_start buf =
    let header = be16 (at buf 0) (at buf 1) in
    if header == header_short
    then (if ltb (length buf) 4 then fault incomplete 0 else cut_frame header 4 (at buf 3) buf)
    else if header == header_ext
    then (if ltb (length buf) 6 then fault incomplete 0 else cut_frame header 5 (at buf 4) buf)
    else fault bad_header 2

unfoldable pub extract_from : Option ℕ → Bytes → Extracted
unfolding extract_at_start
extract_from none buf = fault bad_header (length buf)
extract_from (some zero) buf = extract_at_start buf
extract_from (some (suc i)) buf = fault bad_header (suc i)

unfoldable pub extract_frame : Bytes → Extracted
unfolding extract_from
extract_frame buf =
    if ltb (length buf) 5 then fault incomplete 0 else extract_from (find_start buf) buf
