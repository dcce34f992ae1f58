-- ===== src/Protocol/Status/Fields.antt =====
-- The ranges of the fields that `ParseStatus` reads, and their relation to the bytes.
use zx909_gw.Prelude.{ℕ, ◌+◌, ◌-◌, ◌%◌, ◌≤◌, ◌<◌, ◌≡◌, refl, ◌⊎◌, ◌∷◌, arith, leb, if◌then◌else◌}
use zx909_gw.Prelude.Int.{pos, negsuc, ◌≤ℤ◌, pos_part, neg_part}
use zx909_gw.Bytes.{Bytes}
use zx909_gw.Protocol.Parsed.{ok}
use zx909_gw.Protocol.Status.{Status, signed_byte, parse_status}

-- What the fields say of four bytes and what follows them.
pub record IsStatusOf (b0 b1 b2 b3 : ℕ) (rest : Bytes) (s : Status) : Type 0 where
  -- A percentage, or -1 where the byte is none.
  pub battery :
      ((b0 ≤ 100) × (s.battery_percent ≡ pos b0)) ⊎ ((100 < b0) × (s.battery_percent ≡ negsuc 0))
  pub software : s.software_ver ≡ b1
  -- The byte in two's complement.
  pub timezone_low : negsuc 127 ≤ℤ s.timezone
  pub timezone_high : s.timezone ≤ℤ pos 127
  pub timezone_byte : (pos_part s.timezone + 256 - neg_part s.timezone) % 256 ≡ b2
  pub interval : s.upload_interval ≡ b3
  pub raw : s.raw ≡ b0 ∷ b1 ∷ b2 ∷ b3 ∷ rest

-- A status body of four bytes or more whose third byte is below 256 parses: the battery is the first
-- byte, or -1 above 100; the version is the second; the time zone is a number from -128 to 127 whose
-- two's complement is the third; the interval is the fourth; the raw bytes are the body.
pub parse_status-IsStatusOf :
    (b0 b1 b2 b3 : ℕ) (rest : Bytes)
    → b2 < 256
    → (s : Status) × (parse_status (b0 ∷ b1 ∷ b2 ∷ b3 ∷ rest) ≡ ok s)
      × IsStatusOf b0 b1 b2 b3 rest s
unfolding parse_status
parse_status-IsStatusOf b0 b1 b2 b3 rest h = (
  record {
    battery_percent = if leb b0 100 then pos b0 else negsuc 0;
    software_ver = b1;
    timezone = signed_byte b2;
    upload_interval = b3;
    raw = b0 ∷ b1 ∷ b2 ∷ b3 ∷ rest;
  },
  ground arith,
  record {
    battery = ground arith;
    software = refl;
    timezone_low = ground arith;
    timezone_high = ground arith;
    timezone_byte = ground arith;
    interval = refl;
    raw = refl;
  },
)
