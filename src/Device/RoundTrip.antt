-- ===== src/Device/RoundTrip.antt =====
-- What the simulator sends, the gateway understands.
use Prim.Native.Nat.{bit_or}
use zx909_gw.Prelude.{
  Bool-cases, inl, inr, if◌then◌else◌, ℕ, zero, suc, ◌+◌, ◌*◌, ◌-◌, ◌/◌, ◌%◌, ◌≤◌, ◌<◌, ◌≡◌, refl,
  ap, ◌∙◌, sym, Bool, true, false, [], ◌∷◌, ◌++◌, some, arith, ◌==◌, ==_iff, length, take,
  length-append, take-append, take-length, le→ltb, append_assoc,
}
use zx909_gw.Bytes.{Bytes, crlf}
use zx909_gw.Protocol.Parsed.{ok}
use zx909_gw.Protocol.Frame.{Frame, frame, extract_frame, content_bounds}
use zx909_gw.Protocol.Login.{
  bcd_digit, bcd_digits, drop_leading_zero, trim_filler, finish_imei, parse_login,
}
use zx909_gw.Protocol.Login.Digits.{AreDigits, parse_login-bcd_digits}
use zx909_gw.Protocol.Packet.{Packet, frame_of, IsPlain, IsPlain-of_length, extract_frame-packet}
use zx909_gw.Device.{nibble, pack_digits, build_login}

-- The number of values below the bound at which the test fails.
misses : (test : ℕ → Bool) (bound : ℕ) → ℕ
misses test zero = 0
misses test (suc k) = (if test k then 0 else 1) + misses test k

no_misses : (test : ℕ → Bool) (bound k : ℕ) → misses test bound ≡ 0 → k < bound → test k ≡ true
unfolding misses
no_misses test zero k none_missed inside = absurd (omega arith)
no_misses test (suc j) k none_missed inside = elim (Bool-cases (j == k)) [
  | inl here ↦ ground arith
  | inr elsewhere ↦ ground (arith, no_misses test j k)
]

is_joined : ℕ → Bool
is_joined byte = bit_or (byte / 16 * 16) (byte % 16) == byte

-- The two nibbles of a byte share no bit.
bit_or_nibbles : (byte : ℕ) → byte < 256 → bit_or (byte / 16 * 16) (byte % 16) ≡ byte
unfolding misses is_joined
bit_or_nibbles byte inside = (==_iff _ byte).0 (no_misses is_joined 256 byte refl inside)

packed : (a b : ℕ) → a < 10 → b < 10 → bit_or (a * 16 % 256) b ≡ a * 16 + b
packed a b ha hb =
    let hi : (a * 16 + b) / 16 * 16 ≡ a * 16 % 256 = omega arith in
    let lo : (a * 16 + b) % 16 ≡ b = omega arith in
    ap (λ x. bit_or x b) (sym hi)
    ∙ ap (λ x. bit_or ((a * 16 + b) / 16 * 16) x) (sym lo)
    ∙ bit_or_nibbles (a * 16 + b) (omega arith)

nibble_digit : (c : ℕ) → b'0' ≤ c → c ≤ b'9' → nibble c ≡ c - b'0'
unfolding nibble
nibble_digit c lo hi = omega arith

bcd_digit-back : (n : ℕ) → n < 10 → bcd_digit n ≡ b'0' + n
unfolding bcd_digit
bcd_digit-back n h = ground arith

pack_byte :
    (a b : ℕ)
    → (b'0' ≤ a) × (a ≤ b'9')
    → (b'0' ≤ b) × (b ≤ b'9')
    → bit_or (nibble a * 16 % 256) (nibble b) ≡ (a - b'0') * 16 + (b - b'0')
pack_byte a b ha hb =
    rw (nibble_digit a ha.0 ha.1, nibble_digit b hb.0 hb.1)
      (packed (a - b'0') (b - b'0') (omega arith) (omega arith))

digit_back : (n c : ℕ) → n ≡ c - b'0' → b'0' ≤ c → c ≤ b'9' → bcd_digit n ≡ c
digit_back n c e lo hi = bcd_digit-back n (omega arith) ∙ omega arith

unpack_byte :
    (a b : ℕ) (rest : Bytes)
    → (b'0' ≤ a) × (a ≤ b'9')
    → (b'0' ≤ b) × (b ≤ b'9')
    → bcd_digits (((a - b'0') * 16 + (b - b'0')) ∷ rest) ≡ a ∷ b ∷ bcd_digits rest
unfolding bcd_digits
unpack_byte a b rest ha hb =
    let x : ℕ = (a - b'0') * 16 + (b - b'0') in
    let hi = digit_back (x / 16 % 16) a (omega arith) ha.0 ha.1 in
    let lo = digit_back (x % 16) b (omega arith) hb.0 hb.1 in
    ap (λ c. c ∷ bcd_digit (x % 16) ∷ bcd_digits rest) hi ∙ ap (λ c. a ∷ c ∷ bcd_digits rest) lo

-- Reading the packed digits gives the digits, for an even number of them.
bcd_digits-pack_digits :
    (n : ℕ) (xs : Bytes) → length xs ≡ 2 * n → AreDigits xs → bcd_digits (pack_digits xs) ≡ xs
unfolding pack_digits
bcd_digits-pack_digits zero [] size h = unfold bcd_digits in refl
bcd_digits-pack_digits zero (a ∷ xs) size h = absurd (omega arith)
bcd_digits-pack_digits (suc n) [] size h = absurd (omega arith)
bcd_digits-pack_digits (suc n) (a ∷ []) size h = absurd (omega arith)
bcd_digits-pack_digits (suc n) (a ∷ b ∷ xs) size h =
    ap (λ x. bcd_digits (x ∷ pack_digits xs)) (pack_byte a b h.0 h.1.0)
    ∙ unpack_byte a b (pack_digits xs) h.0 h.1.0
    ∙ ap (λ ys. a ∷ b ∷ ys) (bcd_digits-pack_digits n xs (omega arith) h.1.1)

length-pack_digits : (n : ℕ) (xs : Bytes) → length xs ≡ 2 * n → length (pack_digits xs) ≡ n
unfolding pack_digits
length-pack_digits zero [] size = refl
length-pack_digits zero (a ∷ xs) size = absurd (omega arith)
length-pack_digits (suc n) [] size = absurd (omega arith)
length-pack_digits (suc n) (a ∷ []) size = absurd (omega arith)
length-pack_digits (suc n) (a ∷ b ∷ xs) size = ap suc (length-pack_digits n xs (omega arith))

drop_leading_zero-padded :
    (imei : Bytes) → length imei ≡ 15 → drop_leading_zero (b'0' ∷ imei) ≡ imei
unfolding drop_leading_zero
drop_leading_zero-padded imei size = ground arith

trim_filler-fifteen : (imei : Bytes) → length imei ≡ 15 → trim_filler imei ≡ imei
unfolding trim_filler
trim_filler-fifteen imei size = ground arith

finish_imei-fifteen : (imei : Bytes) → length imei ≡ 15 → finish_imei imei ≡ ok imei
unfolding finish_imei
finish_imei-fifteen imei size =
    rw (le→ltb (length imei) 15 (omega arith))
      (ap ok (ap (λ k. take k imei) (sym size) ∙ take-length imei))

take-pack_digits :
    (digits more : Bytes)
    → length digits ≡ 16
    → take 8 (pack_digits digits ++ more) ≡ pack_digits digits
take-pack_digits digits more size =
    ap (λ k. take k (pack_digits digits ++ more)) (sym (length-pack_digits 8 digits size))
    ∙ take-append (pack_digits digits) more

pub parse_login-pack_digits :
    (imei more : Bytes)
    → length imei ≡ 15
    → AreDigits imei
    → parse_login (pack_digits (b'0' ∷ imei) ++ more) ≡ ok imei
parse_login-pack_digits imei more size digits =
    let all = b'0' ∷ imei in
    let packed_size = length-pack_digits 8 all (omega arith) in
    parse_login-bcd_digits (pack_digits all ++ more)
      (omega (arith, length-append (pack_digits all) more))
    ∙ ap (λ xs. finish_imei (trim_filler (drop_leading_zero xs)))
        (ap bcd_digits (take-pack_digits all more (omega arith))
          ∙ bcd_digits-pack_digits 8 all (omega arith) ((omega arith, omega arith), digits))
    ∙ ap (λ xs. finish_imei (trim_filler xs)) (drop_leading_zero-padded imei size)
    ∙ ap finish_imei (trim_filler-fifteen imei size)
    ∙ finish_imei-fifteen imei size

abbrev pub login_packet : Bytes → Packet
login_packet imei = record {
  ext = false;
  len_hi = 0x0A;
  len_lo = 0;
  proto = 0x01;
  body = pack_digits (b'0' ∷ imei) ++ (0x39 ∷ []);
}

pub build_login_lem :
    (imei : Bytes) → length imei ≡ 15 → build_login imei ≡ some (frame_of (login_packet imei)).raw
unfolding build_login
build_login_lem imei size =
    ground (arith, append_assoc (pack_digits (b'0' ∷ imei)) (0x39 ∷ []) crlf)

pub login-IsPlain : (imei : Bytes) → length imei ≡ 15 → IsPlain (login_packet imei)
unfolding content_bounds
login-IsPlain imei size = IsPlain-of_length (login_packet imei) refl (
    omega (
      arith,
      length-append (pack_digits (b'0' ∷ imei)) (0x39 ∷ []),
      length-pack_digits 8 (b'0' ∷ imei) (omega arith),
    ))

-- The simulator makes a login packet for every IMEI of fifteen decimal digits; it is cut whole out of
-- the stream, whatever follows it, with protocol number 1, and its body parses to that IMEI.
pub build_login-roundtrip :
    (imei rest : Bytes)
    → length imei ≡ 15
    → AreDigits imei
    → (raw : Bytes) × (f : Frame) × (build_login imei ≡ some raw)
      × (extract_frame (raw ++ rest) ≡ frame f (length raw))
      × (f.proto ≡ 0x01)
      × (parse_login f.body ≡ ok imei)
build_login-roundtrip imei rest size digits =
    let p = login_packet imei in
    (
      (frame_of p).raw,
      frame_of p,
      build_login_lem imei size,
      extract_frame-packet p rest (login-IsPlain imei size),
      refl,
      parse_login-pack_digits imei (0x39 ∷ []) size digits,
    )
