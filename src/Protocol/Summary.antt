-- ===== src/Protocol/Summary.antt =====
-- The texts that internal/protocol makes of its data for the log: Hex and ProtoHex of frame.go, and the
-- String methods of frame.go, status.go and wifilbs.go.
pub mod Decimal
pub mod Tests
use Prim.Native.Char.{code}
use Prim.Native.String.{String}
use zx909_gw.Prelude.{
  ℕ, zero, suc, ◌+◌, ◌/◌, ◌%◌, List, [], ◌∷◌, ◌++◌, Option, none, some, ltb, ◌==◌, ◌&&◌,
  if◌then◌else◌, length,
}
use zx909_gw.Prelude.Int.{ℤ, pos, negsuc}
use zx909_gw.Bytes.{Bytes}
use zx909_gw.Platform.{Platform}
use zx909_gw.Protocol.Frame.{Frame}
use zx909_gw.Protocol.Status.{Status}
use zx909_gw.Protocol.WifiLbs.{WifiAp, CellTower, WifiLbs}

-- The bytes of an ASCII text.
abbrev pub codes : String → Bytes
codes String.[] = []
codes (String.◌∷◌ c s) = code c ∷ codes s

-- `hex.EncodeToString`.
abbrev lower_digit : ℕ → ℕ
lower_digit n = if ltb n 10 then b'0' + n else 87 + n

abbrev upper_digit : ℕ → ℕ
upper_digit n = if ltb n 10 then b'0' + n else 55 + n

unfoldable pub encode_hex : Bytes → Bytes
encode_hex [] = []
encode_hex (b ∷ bs) = lower_digit (b / 16) ∷ lower_digit (b % 16) ∷ encode_hex bs

-- `0x%02X` of a byte.
unfoldable pub proto_hex : ℕ → Bytes
proto_hex p = b'0' ∷ b'x' ∷ upper_digit (p / 16) ∷ upper_digit (p % 16) ∷ []

-- `%d` of a natural number; a number has at most as many digits as its value, and one more.
unfoldable pub digits : ℕ → ℕ → Bytes
digits zero n = []
digits (suc fuel) n =
    let front = digits fuel (n / 10) in
    if ltb n 10 then (b'0' + n) ∷ [] else front ++ ((b'0' + n % 10) ∷ [])

unfoldable pub decimal : ℕ → Bytes
unfolding digits
decimal n = digits (suc n) n

-- `%d` and `%+d` of an integer.
unfoldable pub signed : ℤ → Bytes
unfolding decimal
signed (pos n) = decimal n
signed (negsuc n) = b'-' ∷ decimal (suc n)

unfoldable pub plus_signed : ℤ → Bytes
unfolding decimal
plus_signed (pos n) = b'+' ∷ decimal n
plus_signed (negsuc n) = b'-' ∷ decimal (suc n)

unfoldable pub frame_hex : Frame → Bytes
unfolding encode_hex
frame_hex f = encode_hex f.raw

unfoldable pub frame_string : Frame → Bytes
unfolding proto_hex decimal frame_hex
frame_string f =
    codes "proto="
    ++ (proto_hex f.proto
        ++ (codes " body_len=" ++ (decimal (length f.body) ++ (codes " raw=" ++ frame_hex f))))

unfoldable pub status_string : Status → Bytes
unfolding signed proto_hex plus_signed decimal encode_hex
status_string s =
    codes "battery="
    ++ (signed s.battery_percent
        ++ (codes "% sw="
            ++ (proto_hex s.software_ver
                ++ (codes " tz="
                    ++ (plus_signed s.timezone
                        ++ ((if ltb 0 s.upload_interval
                              then codes " interval=" ++ decimal s.upload_interval
                              else [])
                            ++ (if ltb 0 (length s.raw)
                                then codes " raw=" ++ encode_hex s.raw
                                else [])))))))

unfoldable pub ap_string : WifiAp → Bytes
unfolding decimal
ap_string a = a.mac ++ (b'(' ∷ (decimal a.rssi ++ (b')' ∷ [])))

unfoldable pub cell_string : CellTower → Bytes
unfolding decimal
cell_string c =
    decimal c.mcc
    ++ (b'/'
        ∷ (decimal c.mnc
            ++ (codes "/LAC="
                ++ (decimal c.lac
                    ++ (codes "/CI="
                        ++ (decimal c.cell_id ++ (codes "/sig=" ++ decimal c.signal)))))))

-- A list of texts with a space between them.
unfoldable pub spaced : List Bytes → Bytes
spaced [] = []
spaced (x ∷ []) = x
spaced (x ∷ y ∷ xs) = x ++ (b' ' ∷ spaced (y ∷ xs))

unfoldable pub wifi_strings : List WifiAp → List Bytes
unfolding ap_string
wifi_strings [] = []
wifi_strings (a ∷ aps) = ap_string a ∷ wifi_strings aps

unfoldable pub cell_strings : List CellTower → List Bytes
unfolding cell_string
cell_strings [] = []
cell_strings (c ∷ cs) = cell_string c ∷ cell_strings cs

-- ` name=n[...]`, where there is something.
unfoldable pub listed : Bytes → List Bytes → Bytes
unfolding decimal spaced
listed name [] = []
listed name (x ∷ xs) =
    name ++ (decimal (length (x ∷ xs)) ++ (b'[' ∷ (spaced (x ∷ xs) ++ (b']' ∷ []))))

-- `format` is `Time.Format` with the layout of the source.
module _ (P : Platform) where
  open P use {Time}

  unfoldable pub wifi_lbs_string : (Time → Bytes) → WifiLbs P → Bytes
  unfolding listed wifi_strings cell_strings encode_hex
  wifi_lbs_string format w =
      codes "time="
      ++ (format w.time
          ++ (listed (codes " wifi=") (wifi_strings w.wifi)
              ++ (listed (codes " cells=") (cell_strings w.cells)
                  ++ (if length w.wifi == 0 && (length w.cells == 0 && ltb 0 (length w.raw))
                      then codes " raw=" ++ encode_hex w.raw
                      else []))))
