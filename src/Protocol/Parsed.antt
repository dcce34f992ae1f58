-- ===== src/Protocol/Parsed.antt =====
-- The result of the body parsers of internal/protocol: a value, or the error that names the reason.
use zx909_gw.Prelude.{ℕ}
use zx909_gw.Bytes.{Bytes}

pub data ParseError : Type 0 where
  too_short : ℕ → ParseError
  unexpected_imei : Bytes → ParseError
  empty_body no_printable : ParseError

pub data Parsed {ℓ} (A : Type ℓ) : Type ℓ where
  ok : A → Parsed A
  err : ParseError → Parsed A
