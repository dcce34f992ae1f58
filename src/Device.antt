-- ===== src/Device.antt =====
-- cmd/toy/main.go: the packets of the tracker simulator, and the order in which it sends them. The
-- coordinates are taken after their conversion to `uint32`.
pub mod RoundTrip
pub mod Session
pub mod Tests
use Prim.Native.Nat.{bit_or}
use zx909_gw.Prelude.{
  ℕ, ◌+◌, ◌-◌, ◌*◌, ◌/◌, ◌%◌, [], ◌∷◌, ◌++◌, List, Option, none, some, ◌==◌, if◌then◌else◌, length,
}
use zx909_gw.Bytes.{Bytes, crlf, put32}
use zx909_gw.Platform.{Civil}

-- `imei[i] - '0'` on bytes.
unfoldable pub nibble : ℕ → ℕ
nibble c = (c + 256 - b'0') % 256

-- The loop of `imeiToBCD`: `hi<<4 | lo` on bytes.
unfoldable pub pack_digits : Bytes → Bytes
unfolding nibble
pack_digits (a ∷ b ∷ rest) = bit_or (nibble a * 16 % 256) (nibble b) ∷ pack_digits rest
pack_digits _ = []

abbrev pub padded : Bytes → Bytes
padded imei = if length imei == 15 then b'0' ∷ imei else imei

-- `none` stands for `log.Fatalf`.
unfoldable pub imei_to_bcd : Bytes → Option Bytes
unfolding pack_digits
imei_to_bcd imei = if length (padded imei) == 16 then some (pack_digits (padded imei)) else none

unfoldable pub build_login : Bytes → Option Bytes
unfolding imei_to_bcd
build_login imei = elim (imei_to_bcd imei) [
  | none ↦ none
  | some bcd ↦ some (0x78 ∷ 0x78 ∷ 0x0A ∷ 0x01 ∷ (bcd ++ (0x39 ∷ crlf)))
]

unfoldable pub build_time_sync_req : Bytes
build_time_sync_req = 0x78 ∷ 0x78 ∷ 0x01 ∷ 0x30 ∷ 0x0D ∷ 0x0A ∷ []

unfoldable pub build_status : Bytes
build_status = 0x78 ∷ 0x78 ∷ 0x06 ∷ 0x13 ∷ 0x64 ∷ 0x39 ∷ 0x03 ∷ 0x02 ∷ 0x0D ∷ 0x0A ∷ []

-- The year less 2000 is the year plus 48 in a byte; the status byte has its two low bits clear before the heading's high bits are added.
unfoldable pub build_gps : Civil → ℕ → ℕ → ℕ → ℕ → Bytes
build_gps now lat_raw lon_raw speed_kmh heading =
    0x78
    ∷ 0x78
    ∷ 0x12
    ∷ 0x10
    ∷ (now.year + 48) % 256
    ∷ now.month % 256
    ∷ now.day % 256
    ∷ now.hour % 256
    ∷ now.minute % 256
    ∷ now.second % 256
    ∷ 0x9C
    ∷ (put32 lat_raw
        ++ (put32 lon_raw ++ (speed_kmh % 256 ∷ (0x34 + heading / 256 % 4) ∷ heading % 256 ∷ crlf)))

-- What is sent after the login: the request for the time, and at each tick a position, from the
-- clock and the raw coordinates, or the status.
pub data Sending : Type 0 where
  asks_time : Sending
  reports_fix : Civil → ℕ → ℕ → Sending
  reports_status : Sending

-- `sendGPS` sends a speed of 5 km/h and the heading 90.
unfoldable pub sent_bytes : Sending → Bytes
unfolding build_time_sync_req build_gps build_status
sent_bytes asks_time = build_time_sync_req
sent_bytes (reports_fix now lat_raw lon_raw) = build_gps now lat_raw lon_raw 5 90
sent_bytes reports_status = build_status

unfoldable pub sent_all : List Sending → Bytes
unfolding sent_bytes
sent_all [] = []
sent_all (x ∷ xs) = sent_bytes x ++ sent_all xs

-- The bytes that `main` writes, if no write fails: the login, the request for the time, a first
-- position, and then `ticks`.
unfoldable pub transcript : Bytes → Civil → ℕ → ℕ → List Sending → Option Bytes
unfolding build_login sent_all
transcript imei now lat_raw lon_raw ticks = elim (build_login imei) [
  | none ↦ none
  | some login ↦ some (login ++ sent_all (asks_time ∷ reports_fix now lat_raw lon_raw ∷ ticks))
]
