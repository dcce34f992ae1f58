-- ===== src/Protocol/WifiLbs/Points.antt =====
-- The access points of a packet as bytes, and the search for the LBS block behind them.
use zx909_gw.Prelude.{
  ℕ, ltb, false, not, ◌&&◌, ◌||◌, Bool, ◌+◌, ◌*◌, ◌/◌, ◌%◌, ◌≡◌, refl, ap, ◌∙◌, true, List, [], ◌∷◌,
  ◌++◌, some, arith, length, ◌==◌,
}
use zx909_gw.Bytes.{Bytes, be16}
use zx909_gw.Protocol.Lbs.{lbs_header_from, is_lbs_header}
use zx909_gw.Protocol.WifiLbs.{WifiAp, CellTower, format_mac, wifi_aps}
use zx909_gw.Protocol.WifiLbs.Cells.{lbs_block}

-- An access point on the wire: six bytes of its MAC and its signal.
pub record Point : Type 0 where
  pub m0 : ℕ
  pub m1 : ℕ
  pub m2 : ℕ
  pub m3 : ℕ
  pub m4 : ℕ
  pub m5 : ℕ
  pub rssi : ℕ

abbrev pub mac_of : Point → Bytes
mac_of p = p.m0 ∷ p.m1 ∷ p.m2 ∷ p.m3 ∷ p.m4 ∷ p.m5 ∷ []

abbrev pub points_bytes : List Point → Bytes
points_bytes [] = []
points_bytes (p ∷ ps) = p.m0 ∷ p.m1 ∷ p.m2 ∷ p.m3 ∷ p.m4 ∷ p.m5 ∷ p.rssi ∷ points_bytes ps

-- What the parser makes of an access point.
abbrev pub sighted : List Point → List WifiAp
sighted [] = []
sighted (p ∷ ps) = record { mac = format_mac (mac_of p); rssi = p.rssi } ∷ sighted ps

-- Three bytes that could be the count and the MCC of an LBS block.
abbrev pub looks_like_lbs : ℕ → ℕ → ℕ → Bool
looks_like_lbs a b c = not (ltb a 1 || ltb 6 a) && not (be16 b c == 0 || ltb 999 (be16 b c))

-- No three bytes in a row do.
abbrev pub IsUnlike : Bytes → Type 0
IsUnlike (a ∷ b ∷ c ∷ xs) = (looks_like_lbs a b c ≡ false) × IsUnlike (b ∷ c ∷ xs)
IsUnlike _ = Unit {0}

pub wifi_aps-points_bytes : (ps : List Point) → wifi_aps (points_bytes ps) ≡ sighted ps
unfolding wifi_aps
wifi_aps-points_bytes [] = refl
wifi_aps-points_bytes (p ∷ ps) =
    ap (λ xs. record { mac = format_mac (mac_of p); rssi = p.rssi } ∷ xs) (wifi_aps-points_bytes ps)

pub length-points_bytes : (ps : List Point) → length (points_bytes ps) ≡ 7 * length ps
length-points_bytes [] = refl
length-points_bytes (p ∷ ps) = omega (arith, length-points_bytes ps)

pub is_lbs_header-unlike :
    (a b c : ℕ) (rest : Bytes) → looks_like_lbs a b c ≡ false → is_lbs_header a b c rest ≡ false
unfolding is_lbs_header
is_lbs_header-unlike a b c rest h = ground arith

-- The search passes over bytes that are unlike an LBS header and stops at the block behind them.
pub lbs_header_from-passes :
    (i : ℕ) (xs : Bytes) (count hi lo mnc : ℕ) (rest : Bytes)
    → IsUnlike (xs ++ (count ∷ hi ∷ []))
    → is_lbs_header count hi lo rest ≡ true
    → lbs_header_from i (xs ++ (count ∷ hi ∷ lo ∷ mnc ∷ rest)) ≡ some (i + length xs)
unfolding lbs_header_from
lbs_header_from-passes i [] count hi lo mnc rest u h = rw h (ap some (omega arith))
lbs_header_from-passes i (x ∷ []) count hi lo mnc rest u h =
    rw (is_lbs_header-unlike x count hi (mnc ∷ rest) u.0, h) refl
lbs_header_from-passes i (x ∷ y ∷ []) count hi lo mnc rest u h =
    rw (is_lbs_header-unlike x y count (lo ∷ mnc ∷ rest) u.0)
      (lbs_header_from-passes (i + 1) (y ∷ []) count hi lo mnc rest u.1 h ∙ ap some (omega arith))
lbs_header_from-passes i (x ∷ y ∷ z ∷ []) count hi lo mnc rest u h =
    rw (is_lbs_header-unlike x y z (hi ∷ lo ∷ mnc ∷ rest) u.0) (
      lbs_header_from-passes (i + 1) (y ∷ z ∷ []) count hi lo mnc rest u.1 h
      ∙ ap some (omega arith))
lbs_header_from-passes i (x ∷ y ∷ z ∷ v ∷ xs) count hi lo mnc rest u h =
    rw (is_lbs_header-unlike x y z (xs ++ (count ∷ hi ∷ lo ∷ mnc ∷ rest)) u.0) (
      lbs_header_from-passes (i + 1) (y ∷ z ∷ v ∷ xs) count hi lo mnc rest u.1 h
      ∙ ap some (omega arith))

-- No three bytes in a row of the access points, or of them and the start of the block, are like the
-- start of a block.
abbrev pub AreUnlike : ℕ → List CellTower → List Point → Type 0
AreUnlike mcc ts ps = IsUnlike (points_bytes ps ++ (length ts ∷ mcc / 256 % 256 ∷ []))

-- The content of a packet: the time, the access points and the LBS block.
abbrev pub observed : ℕ → ℕ → List CellTower → ℕ → ℕ → ℕ → ℕ → ℕ → ℕ → List Point → Bytes
observed mcc mnc ts d0 d1 d2 d3 d4 d5 ps =
    d0 ∷ d1 ∷ d2 ∷ d3 ∷ d4 ∷ d5 ∷ (points_bytes ps ++ lbs_block mcc mnc ts)
