-- ===== src/Protocol/WifiLbs/Clock.antt =====
-- The time of a Wi-Fi / LBS body whose hour is not BCD.
use zx909_gw.Prelude.{ℕ, ◌+◌, ◌≤◌, ◌≡◌, [], ◌∷◌, false, arith}
use zx909_gw.Prelude.Int.{pos, negsuc}
use zx909_gw.Platform.{Platform}
use zx909_gw.Protocol.WifiLbs.{bcd_byte, is_bad_bcd, packet_time}

module _ (P : Platform) where
  open P use {date}

  accepted :
      (yy mm dd mi ss : ℕ)
      → 1 ≤ mm
      → mm ≤ 12
      → 1 ≤ dd
      → dd ≤ 31
      → mi ≤ 59
      → ss ≤ 59
      → is_bad_bcd P (pos yy) (pos mm) (pos dd) (negsuc 0) (pos mi) (pos ss) ≡ false
  unfolding is_bad_bcd
  accepted yy mm dd mi ss m1 m2 d1 d2 i1 s1 = ground arith

  -- Where the other five bytes are a valid BCD date, and the hour has a nibble above 9 (`bcdByte`
  -- gives -1 for it), the body is not read as binary: the time is built with the hour -1.
  pub packet_time-bad_hour :
      (y m d h i s yy mm dd mi ss : ℕ)
      → bcd_byte y ≡ pos yy
      → bcd_byte m ≡ pos mm
      → bcd_byte d ≡ pos dd
      → bcd_byte h ≡ negsuc 0
      → bcd_byte i ≡ pos mi
      → bcd_byte s ≡ pos ss
      → 1 ≤ mm
      → mm ≤ 12
      → 1 ≤ dd
      → dd ≤ 31
      → mi ≤ 59
      → ss ≤ 59
      → packet_time P (y ∷ m ∷ d ∷ h ∷ i ∷ s ∷ [])
        ≡ date (pos (2000 + yy)) (pos mm) (pos dd) (negsuc 0) (pos mi) (pos ss)
  unfolding packet_time
  packet_time-bad_hour y m d h i s yy mm dd mi ss ey em ed eh ei es m1 m2 d1 d2 i1 s1 =
      rw (ey, em, ed, eh, ei, es, accepted yy mm dd mi ss m1 m2 d1 d2 i1 s1)
