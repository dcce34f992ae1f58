-- ===== src/Protocol/Iccid.antt =====
-- internal/protocol/iccid.go: the printable part of an ICCID body.
pub mod Printable
use zx909_gw.Prelude.{ℕ, Bool, not, ◌&&◌, ◌||◌, [], ◌∷◌, leb, ◌==◌, if◌then◌else◌, length}
use zx909_gw.Bytes.{Bytes}
use zx909_gw.Protocol.Parsed.{Parsed, ok, err, empty_body, no_printable}

-- `unicode.IsPrint` of a rune below 256: ASCII from the space on, and the Latin-1 graphic
-- characters without the no-break space and the soft hyphen.
unfoldable pub is_print : ℕ → Bool
is_print b = (leb 0x20 b && leb b 0x7E) || ((leb 0xA1 b && leb b 0xFF) && not (b == 0xAD))

-- The loop: printable bytes up to the first zero byte.
unfoldable pub printable : Bytes → Bytes
unfolding is_print
printable [] = []
printable (b ∷ bs) =
    let later = printable bs in if b == 0 then [] else if is_print b then b ∷ later else later

unfoldable pub parse_iccid : Bytes → Parsed Bytes
unfolding printable
parse_iccid body =
    let out = printable body in
    if length body == 0
    then err empty_body
    else if length out == 0
    then err no_printable
    else ok out
