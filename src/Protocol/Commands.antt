-- ===== src/Protocol/Commands.antt =====
-- internal/protocol/commands.go: the packets that the gateway sends on its own account.
use zx909_gw.Prelude.{ℕ, ◌-◌, ◌%◌, [], ◌∷◌, ◌++◌, ltb, ◌==◌, if◌then◌else◌}
use zx909_gw.Prelude.Int.{ℤ, pos, negsuc}
use zx909_gw.Bytes.{Bytes, put16, crlf}
use zx909_gw.Platform.{Platform}

-- `byte(n)` and `uint16(n)` of a Go int: the low bits in two's complement.
abbrev pub low_byte : ℤ → ℕ
low_byte (pos n) = n % 256
low_byte (negsuc n) = 255 - n % 256

abbrev pub low_word : ℤ → ℕ
low_word (pos n) = n % 65536
low_word (negsuc n) = 65535 - n % 65536

unfoldable pub build_default_settings : Bytes
build_default_settings =
    0x78 ∷ 0x78 ∷ 0x1F ∷ 0x57 ∷ 0x00 ∷ 0x10 ∷ 0x01 ∷ 0x7F ∷ 0x18 ∷ 0x26 ∷ 0x00 ∷ 0x00 ∷ 0x00 ∷ 0x00
    ∷ 0x00 ∷ 0x00 ∷ 0x00 ∷ 0x00 ∷ 0x00 ∷ 0x00 ∷ 0x00 ∷ 0x00 ∷ 0x00 ∷ 0x00 ∷ 0x00 ∷ 0x00 ∷ 0x00
    ∷ 0x00 ∷ 0x00 ∷ 0x00 ∷ 0x00 ∷ 0x3B ∷ 0x3B ∷ 0x3B ∷ 0x0D ∷ 0x0A ∷ []

unfoldable pub build_restart : Bytes
build_restart = 0x78 ∷ 0x78 ∷ 0x02 ∷ 0x48 ∷ 0x01 ∷ 0x0D ∷ 0x0A ∷ []

unfoldable pub build_shutdown : Bytes
build_shutdown = 0x78 ∷ 0x78 ∷ 0x02 ∷ 0x48 ∷ 0x02 ∷ 0x0D ∷ 0x0A ∷ []

unfoldable pub build_upload_interval : ℕ → Bytes
build_upload_interval seconds =
    let low = if ltb seconds 10 then 10 else seconds in
    let high = if ltb 7200 low then 7200 else low in
    0x78 ∷ 0x78 ∷ 0x03 ∷ 0x97 ∷ (put16 high ++ crlf)

unfoldable pub build_status_interval : ℤ → Bytes
build_status_interval (pos n) =
    0x78 ∷ 0x78 ∷ 0x02 ∷ 0x13 ∷ low_byte (pos (if n == 0 then 1 else n)) ∷ 0x0D ∷ 0x0A ∷ []
build_status_interval (negsuc n) =
    0x78 ∷ 0x78 ∷ 0x02 ∷ 0x13 ∷ low_byte (negsuc n) ∷ 0x0D ∷ 0x0A ∷ []

unfoldable pub build_locate : Bytes
build_locate = 0x78 ∷ 0x78 ∷ 0x01 ∷ 0x80 ∷ 0x0D ∷ 0x0A ∷ []

module _ (P : Platform) where
  open P use {Time, utc}

  unfoldable pub build_time_sync_reply : Time → Bytes
  build_time_sync_reply t =
      let c = utc t in
      0x78
      ∷ 0x78
      ∷ 0x07
      ∷ 0x30
      ∷ (put16 (c.year % 65536)
          ++ (c.month % 256 ∷ c.day % 256 ∷ c.hour % 256 ∷ c.minute % 256 ∷ c.second % 256 ∷ crlf))
