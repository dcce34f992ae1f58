-- ===== src/Protocol/Frame/Scan.antt =====
-- The two loops of internal/protocol/frame.go that walk a buffer: the search for a header and the
-- search for a trailer.
use zx909_gw.Prelude.{
  ℕ, zero, suc, ◌+◌, ◌<◌, ◌≡◌, refl, ap, ◌⊎◌, inl, inr, Bool, false, ◌&&◌, ◌||◌, [], ◌∷◌, ◌++◌,
  some, arith, ◌==◌, Bool-cases, length, take, none,
}
use zx909_gw.Bytes.{Bytes}
use zx909_gw.Protocol.Frame.{find_start, trailer_from}

-- Somewhere in the bytes `0D 0A` stands.
abbrev pub has_crlf : Bytes → Bool
has_crlf (a ∷ b ∷ rest) = (a == 0x0D && b == 0x0A) || has_crlf (b ∷ rest)
has_crlf _ = false

pub trailer_from-append :
    (i : ℕ) (ys zs : Bytes)
    → has_crlf ys ≡ false
    → trailer_from i (ys ++ (0x0D ∷ 0x0A ∷ zs)) ≡ some (i + length ys + 2)
unfolding trailer_from
trailer_from-append i [] zs h = ground arith
trailer_from-append i (y ∷ []) zs h = ground arith
trailer_from-append i (y ∷ y' ∷ ys) zs h = ground (arith, trailer_from-append (i + 1) (y' ∷ ys) zs)

has_crlf-cons :
    (x y : ℕ) (xs bs zs : Bytes)
    → y ∷ xs ≡ bs ++ (0x0D ∷ 0x0A ∷ zs)
    → (x == 0x0D && y == 0x0A) ≡ false
    → has_crlf bs ≡ false
    → has_crlf (x ∷ bs) ≡ false
has_crlf-cons x y xs [] zs e miss h = refl
has_crlf-cons x y xs (b ∷ bs) zs e miss h = ground arith

-- What the loop finds is the first `0D 0A`.
pub record FirstTrailer (i : ℕ) (xs : Bytes) (r : ℕ) : Type 0 where
  pub before : Bytes
  pub after : Bytes
  pub splits : xs ≡ before ++ (0x0D ∷ 0x0A ∷ after)
  pub is_first : has_crlf before ≡ false
  pub ends : r ≡ i + length before + 2

pub trailer_from-FirstTrailer :
    (i : ℕ) (xs : Bytes) (r : ℕ) → trailer_from i xs ≡ some r → FirstTrailer i xs r
unfolding trailer_from
trailer_from-FirstTrailer i [] r h = absurd (ground arith)
trailer_from-FirstTrailer i (x ∷ []) r h = absurd (ground arith)
trailer_from-FirstTrailer i (x ∷ y ∷ xs) r h = elim (Bool-cases (x == 0x0D && y == 0x0A)) [
  | inl hit ↦ record {
    before = [];
    after = xs;
    splits = ground arith;
    is_first = refl;
    ends = ground arith;
  }
  | inr miss ↦
      let later = trailer_from-FirstTrailer (i + 1) (y ∷ xs) r (ground arith) in
      record {
        before = x ∷ later.before;
        after = later.after;
        splits = ap (◌∷◌ x) later.splits;
        is_first = has_crlf-cons x y xs later.before later.after later.splits miss later.is_first;
        ends = omega (arith, later.ends);
      }
]

pub find_start_lt : (xs : Bytes) (i : ℕ) → find_start xs ≡ some i → i < length xs
unfolding find_start
find_start_lt [] i h = absurd (ground arith)
find_start_lt (x ∷ []) i h = absurd (ground arith)
find_start_lt (x ∷ y ∷ xs) zero h = omega arith
find_start_lt (x ∷ y ∷ xs) (suc i) h = ground (arith, find_start_lt (y ∷ xs) i)

-- A header at the start of the buffer.
pub find_start-zero :
    (a b : ℕ) (xs : Bytes)
    → find_start (a ∷ b ∷ xs) ≡ some 0
    → ((a ≡ 0x78) × (b ≡ 0x78)) ⊎ ((a ≡ 0x79) × (b ≡ 0x79))
unfolding find_start
find_start-zero a b xs h = ground arith

-- No header stands before the one that is found.
pub find_start-take : (xs : Bytes) (i : ℕ) → find_start xs ≡ some i → find_start (take i xs) ≡ none
unfolding find_start
find_start-take [] i h = absurd (ground arith)
find_start-take (x ∷ []) i h = absurd (ground arith)
find_start-take (x ∷ y ∷ xs) zero h = refl
find_start-take (x ∷ y ∷ xs) (suc zero) h = refl
find_start-take (x ∷ y ∷ xs) (suc (suc i)) h = ground (arith, find_start-take (y ∷ xs) (suc i))
