-- ===== src/Protocol/Summary/Decimal.antt =====
-- The texts of bytes and numbers determine them.
use zx909_gw.Prelude.{
  ℕ, zero, suc, ◌+◌, ◌-◌, ◌*◌, ◌/◌, ◌%◌, ◌<◌, ◌≡◌, refl, ap, ◌∙◌, inl, inr, [], ◌∷◌, ◌++◌, ltb,
  arith, if◌then◌else◌, Bool-cases,
}
use zx909_gw.Bytes.{Bytes, AreBytes}
use zx909_gw.Protocol.Summary.{encode_hex, digits, decimal}

-- The value of a hexadecimal digit, and the bytes that hexadecimal digits stand for.
abbrev digit_value : ℕ → ℕ
digit_value d = if ltb d 58 then d - 48 else d - 87

abbrev pub decode_hex : Bytes → Bytes
decode_hex (a ∷ b ∷ xs) = (digit_value a * 16 + digit_value b) ∷ decode_hex xs
decode_hex _ = []

-- The hexadecimal text of bytes gives them back.
pub decode_hex-encode_hex : (bs : Bytes) → AreBytes bs → decode_hex (encode_hex bs) ≡ bs
unfolding encode_hex
decode_hex-encode_hex [] h = refl
decode_hex-encode_hex (b ∷ bs) h = ground (arith, decode_hex-encode_hex bs h.1)

-- The number that decimal digits stand for, behind the number of those before.
abbrev pub read_decimal : ℕ → Bytes → ℕ
read_decimal acc [] = acc
read_decimal acc (d ∷ ds) = read_decimal (acc * 10 + (d - 48)) ds

read_decimal-append :
    (acc : ℕ) (xs ys : Bytes) → read_decimal acc (xs ++ ys) ≡ read_decimal (read_decimal acc xs) ys
read_decimal-append acc [] ys = refl
read_decimal-append acc (x ∷ xs) ys = read_decimal-append (acc * 10 + (x - 48)) xs ys

read_decimal-digits : (fuel n : ℕ) → n < fuel → read_decimal 0 (digits fuel n) ≡ n
unfolding digits
read_decimal-digits zero n h = absurd (omega arith)
read_decimal-digits (suc fuel) n h = elim (Bool-cases (ltb n 10)) [
  | inl small ↦ rw small (omega arith)
  | inr large ↦ rw large (
      read_decimal-append 0 (digits fuel (n / 10)) ((b'0' + n % 10) ∷ [])
      ∙ ap (λ v. v * 10 + (b'0' + n % 10 - 48)) (read_decimal-digits fuel (n / 10) (ground arith))
      ∙ omega arith)
]

-- The decimal text of a number gives it back: the fuel is enough.
pub read_decimal-decimal : (n : ℕ) → read_decimal 0 (decimal n) ≡ n
unfolding decimal
read_decimal-decimal n = read_decimal-digits (suc n) n (omega arith)
