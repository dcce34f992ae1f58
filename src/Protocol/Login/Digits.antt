-- ===== src/Protocol/Login/Digits.antt =====
-- What `ParseLogin` makes of a body: always fifteen decimal digits.
use zx909_gw.Prelude.{
  ℕ, zero, suc, ◌*◌, ◌/◌, ◌%◌, ◌≤◌, ◌≡◌, refl, inl, inr, ◌&&◌, ◌||◌, [], ◌∷◌, arith, ◌==◌,
  Bool-cases, length, take, drop, length-take, length-drop, le→ltb,
}
use zx909_gw.Bytes.{Bytes, at}
use zx909_gw.Protocol.Parsed.{ok}
use zx909_gw.Protocol.Login.{
  bcd_digit, bcd_digits, drop_leading_zero, trim_filler, finish_imei, parse_login,
}

-- Every item is an ASCII digit.
abbrev pub AreDigits : Bytes → Type 0
AreDigits [] = Unit {0}
AreDigits (c ∷ cs) = ((b'0' ≤ c) × (c ≤ b'9')) × AreDigits cs

bcd_digit-bounds : (n : ℕ) → (b'0' ≤ bcd_digit n) × (bcd_digit n ≤ b'9')
unfolding bcd_digit
bcd_digit-bounds n = ground arith

bcd_digits-AreDigits : (bs : Bytes) → AreDigits (bcd_digits bs)
unfolding bcd_digits
bcd_digits-AreDigits [] = tt
bcd_digits-AreDigits (b ∷ bs) =
    (bcd_digit-bounds (b / 16 % 16), (bcd_digit-bounds (b % 16), bcd_digits-AreDigits bs))

length-bcd_digits : (bs : Bytes) → length (bcd_digits bs) ≡ 2 * length bs
unfolding bcd_digits
length-bcd_digits [] = refl
length-bcd_digits (b ∷ bs) = omega (arith, length-bcd_digits bs)

take-AreDigits : (n : ℕ) (xs : Bytes) → AreDigits xs → AreDigits (take n xs)
take-AreDigits zero xs h = tt
take-AreDigits (suc n) [] h = tt
take-AreDigits (suc n) (x ∷ xs) h = (h.0, take-AreDigits n xs h.1)

drop-AreDigits : (n : ℕ) (xs : Bytes) → AreDigits xs → AreDigits (drop n xs)
drop-AreDigits zero xs h = h
drop-AreDigits (suc n) [] h = tt
drop-AreDigits (suc n) (x ∷ xs) h = drop-AreDigits n xs h.1

-- At least fifteen digits.
abbrev LongDigits : Bytes → Type 0
LongDigits s = (15 ≤ length s) × AreDigits s

drop_leading_zero-LongDigits :
    (s : Bytes) → length s ≡ 16 → AreDigits s → LongDigits (drop_leading_zero s)
unfolding drop_leading_zero
drop_leading_zero-LongDigits s size digits = elim (Bool-cases (length s == 16 && at s 0 == b'0')) [
  | inl zero_first ↦ rw zero_first (omega (arith, length-drop 1 s), drop-AreDigits 1 s digits)
  | inr other ↦ rw other (omega arith, digits)
]

trim_filler-LongDigits : (s : Bytes) → LongDigits s → LongDigits (trim_filler s)
unfolding trim_filler
trim_filler-LongDigits s h =
    elim (Bool-cases
      (length s == 16 && (at s 15 == b'0' || (at s 15 == b'F' || at s 15 == b'f')))) [
        | inl filled ↦ rw filled (omega (arith, length-take 15 s, h.0), take-AreDigits 15 s h.1)
        | inr other ↦ rw other h
      ]

finish_imei-ok :
    (s : Bytes)
    → LongDigits s
    → (imei : Bytes) × (finish_imei s ≡ ok imei) × (length imei ≡ 15) × AreDigits imei
unfolding finish_imei
finish_imei-ok s h = (
  take 15 s,
  rw (le→ltb (length s) 15 h.0),
  omega (arith, length-take 15 s, h.0),
  take-AreDigits 15 s h.1,
)

pub parse_login-bcd_digits :
    (body : Bytes)
    → 8 ≤ length body
    → parse_login body ≡ finish_imei (trim_filler (drop_leading_zero (bcd_digits (take 8 body))))
unfolding parse_login
parse_login-bcd_digits body h = rw (le→ltb (length body) 8 h)

-- Every login body of eight bytes or more, whatever the bytes, parses to an IMEI of exactly fifteen
-- decimal digits.
pub parse_login_total :
    (body : Bytes)
    → 8 ≤ length body
    → (imei : Bytes) × (parse_login body ≡ ok imei) × (length imei ≡ 15) × AreDigits imei
unfolding parse_login
parse_login_total body h = rw (le→ltb (length body) 8 h) (
    finish_imei-ok _ (
      trim_filler-LongDigits _ (
        drop_leading_zero-LongDigits (bcd_digits (take 8 body))
          (omega (arith, length-bcd_digits (take 8 body), length-take 8 body))
          (bcd_digits-AreDigits (take 8 body)))))
