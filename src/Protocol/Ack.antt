-- ===== src/Protocol/Ack.antt =====
-- internal/protocol/frame.go: the replies to a device.
use zx909_gw.Prelude.{ℕ, [], ◌∷◌, ◌++◌, ltb, leb, if◌then◌else◌, length, take}
use zx909_gw.Bytes.{Bytes, put16, crlf}
use zx909_gw.Protocol.Crc.{crc16_x25}

abbrev zero_datetime : Bytes
zero_datetime = 0 ∷ 0 ∷ 0 ∷ 0 ∷ 0 ∷ 0 ∷ []

unfoldable pub build_ack : ℕ → ℕ → Bytes
unfolding crc16_x25
build_ack proto serial =
    0x78 ∷ 0x78 ∷ (0x05 ∷ proto ∷ put16 serial)
    ++ (put16 (crc16_x25 (0x05 ∷ proto ∷ put16 serial)) ++ crlf)

unfoldable pub build_login_ack : Bytes
build_login_ack = 0x78 ∷ 0x78 ∷ 0x01 ∷ 0x01 ∷ 0x0D ∷ 0x0A ∷ []

unfoldable pub build_simple_ack : ℕ → Bytes
build_simple_ack proto = 0x78 ∷ 0x78 ∷ 0x01 ∷ proto ∷ 0x0D ∷ 0x0A ∷ []

unfoldable pub build_datetime_ack : ℕ → Bytes → Bytes
build_datetime_ack proto datetime =
    let six = if ltb (length datetime) 6 then zero_datetime else datetime in
    0x78 ∷ 0x78 ∷ 0x00 ∷ proto ∷ (take 6 six ++ crlf)

unfoldable pub build_status_echo : Bytes → Bytes
unfolding build_simple_ack
build_status_echo raw = if leb 5 (length raw) then raw else build_simple_ack 0x13

unfoldable pub datetime_from_body : Bytes → Bytes
datetime_from_body body = if leb 6 (length body) then take 6 body else zero_datetime
