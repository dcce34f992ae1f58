-- ===== src/Protocol/Status.antt =====
-- internal/protocol/status.go: the fields of a status body.
pub mod Fields
use zx909_gw.Prelude.{ℕ, ◌-◌, [], ◌∷◌, ltb, leb, if◌then◌else◌, length}
use zx909_gw.Prelude.Int.{ℤ, pos, negsuc, sub_ℕ}
use zx909_gw.Bytes.{Bytes, at}
use zx909_gw.Protocol.Parsed.{Parsed, ok, err, empty_body}

pub record Status : Type 0 where
  pub battery_percent : ℤ
  pub software_ver : ℕ
  pub timezone : ℤ
  pub upload_interval : ℕ
  pub raw : Bytes

-- `tz := int(b); if tz > 127 { tz -= 256 }`.
unfoldable pub signed_byte : ℕ → ℤ
signed_byte b = if ltb 127 b then sub_ℕ b 256 else pos b

unfoldable pub parse_status : Bytes → Parsed Status
unfolding signed_byte
parse_status body =
    if ltb (length body) 1
    then err empty_body
    else ok (record {
      battery_percent = if leb (at body 0) 100 then pos (at body 0) else negsuc 0;
      software_ver = if leb 2 (length body) then at body 1 else 0;
      timezone = if leb 3 (length body) then signed_byte (at body 2) else pos 0;
      upload_interval = if leb 4 (length body) then at body 3 else 0;
      raw = body;
    })
