-- ===== src/Protocol/Gps.antt =====
-- internal/protocol/gps.go: the position fix of a GPS body.
pub mod Fix
use zx909_gw.Prelude.{ℕ, ◌+◌, ◌/◌, ◌%◌, Bool, ◌&&◌, ◌||◌, [], ◌∷◌, ltb, ◌==◌, if◌then◌else◌, length}
use zx909_gw.Prelude.Int.{pos}
use zx909_gw.Bytes.{Bytes, at, be16, be32}
use zx909_gw.Platform.{Platform}
use zx909_gw.Protocol.Parsed.{Parsed, ok, err, too_short}

module _ (P : Platform) where
  open P use {Time, Float, date, float, quotient, ne_zero}

  pub record Position : Type 0 where
    pub time : Time
    pub latitude : Float
    pub longitude : Float
    pub speed_kmh : Float
    pub course : Float
    pub satellites : ℕ
    pub valid : Bool
    pub course_status : ℕ

  -- `float64(raw) / 1_800_000.0`.
  unfoldable pub degrees : ℕ → Float
  degrees raw = quotient (float raw) (float 1800000)

  -- Bits 4 and 11 of the flags, or two coordinates that are not zero.
  unfoldable pub is_valid_fix : ℕ → Float → Float → Bool
  is_valid_fix flags lat lon =
      flags / 16 % 2 == 1 || (flags / 2048 % 2 == 1 || (ne_zero lat && ne_zero lon))

  -- The fields, from a body that is long enough.
  unfoldable pub position_of : Bytes → Position
  unfolding degrees is_valid_fix
  position_of body =
      let lat = degrees (be32 (at body 7) (at body 8) (at body 9) (at body 10)) in
      let lon = degrees (be32 (at body 11) (at body 12) (at body 13) (at body 14)) in
      let flags = be16 (at body 16) (at body 17) in
      record {
        time =
            date (pos (2000 + at body 0)) (pos (at body 1)) (pos (at body 2)) (pos (at body 3))
              (pos (at body 4)) (pos (at body 5));
        latitude = lat;
        longitude = lon;
        speed_kmh = float (at body 15);
        course = float (flags % 1024);
        satellites = at body 6 % 16;
        valid = is_valid_fix flags lat lon;
        course_status = flags;
      }

  unfoldable pub parse_gps : Bytes → Parsed Position
  unfolding position_of
  parse_gps body =
      if ltb (length body) 18 then err (too_short (length body)) else ok (position_of body)
