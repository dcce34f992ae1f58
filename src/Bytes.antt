-- ===== src/Bytes.antt =====
-- Byte slices of the protocol package, and encoding/binary's big-endian order.
-- A byte is a number below 256; the code that needs the bound takes it as a hypothesis.
use zx909_gw.Prelude.{ℕ, ◌+◌, ◌*◌, ◌/◌, ◌%◌, ◌<◌, List, [], ◌∷◌, get_or}

abbrev pub Bytes : Type 0
Bytes = List ℕ

-- `xs[i]`, at an index that the code has checked to lie in range.
abbrev pub at : Bytes → ℕ → ℕ
at xs i = get_or xs i 0

-- `uint16(b[1]) | uint16(b[0])<<8` and `binary.BigEndian.Uint32`: disjoint bits, so sums.
abbrev pub be16 : ℕ → ℕ → ℕ
be16 hi lo = hi * 256 + lo

abbrev pub be32 : ℕ → ℕ → ℕ → ℕ → ℕ
be32 a b c d = a * 16777216 + b * 65536 + c * 256 + d

-- `PutUint16`: the two bytes of a 16-bit value.
abbrev pub put16 : ℕ → Bytes
put16 v = v / 256 % 256 ∷ v % 256 ∷ []

-- Every item is a byte.
abbrev pub AreBytes : Bytes → Type 0
AreBytes [] = Unit {0}
AreBytes (b ∷ bs) = (b < 256) × AreBytes bs

-- The trailer of every frame.
abbrev pub crlf : Bytes
crlf = 0x0D ∷ 0x0A ∷ []

-- `PutUint32`.
abbrev pub put32 : ℕ → Bytes
put32 v = v / 16777216 % 256 ∷ v / 65536 % 256 ∷ v / 256 % 256 ∷ v % 256 ∷ []
