-- ===== src/Protocol/Gps/Fix.antt =====
-- What `ParseGPS` reads from a body, and what it takes for a valid fix.
use zx909_gw.Prelude.{
  ℕ, ◌+◌, ◌/◌, ◌%◌, ◌≤◌, ◌<◌, ◌≡◌, refl, ap, true, false, [], ◌∷◌, ◌++◌, arith, ◌==◌, length,
  le→ltb,
}
use zx909_gw.Bytes.{Bytes, put32}
use zx909_gw.Platform.{Platform, Civil}
use zx909_gw.Protocol.Parsed.{ok}
use zx909_gw.Protocol.Frame.{Frame, frame, is_gps, content_bounds, extract_frame}
use zx909_gw.Protocol.Frame.Sound.{min_body, extract_frame-IsFront}
use zx909_gw.Protocol.Packet.{Packet, frame_of, IsPlain-of_length, extract_frame-packet}
use zx909_gw.Protocol.Gps.{Position, position_of, degrees, is_valid_fix, parse_gps}
use zx909_gw.Device.{build_gps}

gps_min_body : (p n : ℕ) → is_gps p ≡ true → min_body p ≤ n → 18 ≤ n
unfolding is_gps
gps_min_body p n gps h = ground arith

-- The packet that `buildGPS` writes.
abbrev pub gps_packet : Civil → ℕ → ℕ → ℕ → ℕ → Packet
gps_packet now lat_raw lon_raw speed heading = record {
  ext = false;
  len_hi = 0x12;
  len_lo = 0;
  proto = 0x10;
  body =
      (now.year + 48) % 256
      ∷ now.month % 256
      ∷ now.day % 256
      ∷ now.hour % 256
      ∷ now.minute % 256
      ∷ now.second % 256
      ∷ 0x9C
      ∷ (put32 lat_raw
          ++ (put32 lon_raw ++ (speed % 256 ∷ (0x34 + heading / 256 % 4) ∷ heading % 256 ∷ [])));
}

module _ (P : Platform) where
  open P use {Time, Float, float, quotient, ne_zero}

  parse_gps-position_of :
      (body : Bytes) → 18 ≤ length body → parse_gps P body ≡ ok (position_of P body)
  unfolding parse_gps
  parse_gps-position_of body h = rw (le→ltb (length body) 18 h)

  -- The body of every GPS frame that `ExtractFrame` returns is long enough for `ParseGPS`, which then
  -- does not fail and gives the fields at their offsets.
  pub parse_gps-extract_frame :
      (buf : Bytes) {f : Frame} {n : ℕ}
      → extract_frame buf ≡ frame f n
      → is_gps f.proto ≡ true
      → parse_gps P f.body ≡ ok (position_of P f.body)
  parse_gps-extract_frame buf {f} e gps =
      parse_gps-position_of f.body
        (gps_min_body f.proto (length f.body) gps (extract_frame-IsFront buf e).body_min)

  -- The fields of a simulator packet, as `ParseGPS` gives them back.
  pub record IsFixOf (lat_raw lon_raw speed heading : ℕ) (p : Position P) : Type 0 where
    pub latitude : p.latitude ≡ degrees P lat_raw
    pub longitude : p.longitude ≡ degrees P lon_raw
    pub speed_kmh : p.speed_kmh ≡ float speed
    pub course : p.course ≡ float heading
    pub satellites : p.satellites ≡ 12

  position_of-IsFixOf :
      (now : Civil) (lat_raw lon_raw speed heading : ℕ)
      → lat_raw < 4294967296
      → lon_raw < 4294967296
      → speed < 256
      → heading < 1024
      → IsFixOf lat_raw lon_raw speed heading
          (position_of P (gps_packet now lat_raw lon_raw speed heading).body)
  unfolding position_of
  position_of-IsFixOf now lat_raw lon_raw speed heading h1 h2 h3 h4 = record {
    latitude = ap (degrees P) (omega arith);
    longitude = ap (degrees P) (omega arith);
    speed_kmh = ap float (omega arith);
    course = ap float (omega arith);
    satellites = refl;
  }

  -- A GPS packet of the simulator with 32-bit raw coordinates, a speed below 256 and a heading below
  -- 1024 is cut out of the stream, whatever bytes it holds and whatever follows it, and parses to
  -- these coordinates, this speed and heading, and 12 satellites.
  pub build_gps-roundtrip :
      (now : Civil) (lat_raw lon_raw speed heading : ℕ) (rest : Bytes)
      → lat_raw < 4294967296
      → lon_raw < 4294967296
      → speed < 256
      → heading < 1024
      → (f : Frame) × (p : Position P) × (extract_frame
            (build_gps now lat_raw lon_raw speed heading ++ rest)
          ≡ frame f 24)
        × (parse_gps P f.body ≡ ok p)
        × IsFixOf lat_raw lon_raw speed heading p
  unfolding build_gps content_bounds
  build_gps-roundtrip now lat_raw lon_raw speed heading rest h1 h2 h3 h4 =
      let k = gps_packet now lat_raw lon_raw speed heading in
      (
        frame_of k,
        position_of P k.body,
        extract_frame-packet k rest (IsPlain-of_length k refl refl),
        parse_gps-position_of k.body (omega arith),
        position_of-IsFixOf now lat_raw lon_raw speed heading h1 h2 h3 h4,
      )

  -- Without coordinates and with bit 11 clear, a fix counts as valid exactly if bit 4 of its course
  -- is set.
  pub is_valid_fix-course :
      (flags : ℕ) (lat lon : Float)
      → flags / 2048 % 2 ≡ 0
      → ne_zero lat ≡ false
      → is_valid_fix P flags lat lon ≡ (flags % 1024 / 16 % 2 == 1)
  unfolding is_valid_fix
  is_valid_fix-course flags lat lon h z =
      let low : flags % 1024 / 16 % 2 ≡ flags / 16 % 2 = omega arith in ground (arith, low)
