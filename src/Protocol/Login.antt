-- ===== src/Protocol/Login.antt =====
-- internal/protocol/login.go: the IMEI of a login body, as the bytes of a Go string.
pub mod Digits
use zx909_gw.Prelude.{
  ℕ, ◌+◌, ◌/◌, ◌%◌, Bool, ◌&&◌, ◌||◌, [], ◌∷◌, ltb, ◌==◌, if◌then◌else◌, length, take, drop,
}
use zx909_gw.Bytes.{Bytes, at}
use zx909_gw.Protocol.Parsed.{Parsed, ok, err, too_short, unexpected_imei}

-- `'0' + n` for a nibble, where A to F count as 0.
unfoldable pub bcd_digit : ℕ → ℕ
bcd_digit n = if ltb 9 n then b'0' else b'0' + n

unfoldable pub bcd_digits : Bytes → Bytes
unfolding bcd_digit
bcd_digits [] = []
bcd_digits (b ∷ bs) = bcd_digit (b / 16 % 16) ∷ bcd_digit (b % 16) ∷ bcd_digits bs

unfoldable pub drop_leading_zero : Bytes → Bytes
drop_leading_zero s = if length s == 16 && at s 0 == b'0' then drop 1 s else s

unfoldable pub trim_filler : Bytes → Bytes
trim_filler s =
    let last = at s 15 in
    if length s == 16 && (last == b'0' || (last == b'F' || last == b'f')) then take 15 s else s

unfoldable pub finish_imei : Bytes → Parsed Bytes
finish_imei s = if ltb (length s) 15 then err (unexpected_imei s) else ok (take 15 s)

unfoldable pub parse_login : Bytes → Parsed Bytes
unfolding finish_imei trim_filler drop_leading_zero bcd_digits
parse_login body =
    if ltb (length body) 8
    then err (too_short (length body))
    else finish_imei (trim_filler (drop_leading_zero (bcd_digits (take 8 body))))
