-- ===== src/Protocol/Lbs.antt =====
-- internal/protocol/wifilbs.go: the search for the LBS header in a Wi-Fi / LBS body.
use zx909_gw.Prelude.{
  ℕ, ◌+◌, ◌*◌, Bool, not, ◌&&◌, ◌||◌, ◌∷◌, Option, none, some, ltb, leb, ◌==◌, if◌then◌else◌,
  length,
}
use zx909_gw.Bytes.{Bytes, be16}

-- The three tests of one round of `findLBSHeader`: `rest` is what follows the four header bytes.
unfoldable pub is_lbs_header : ℕ → ℕ → ℕ → Bytes → Bool
is_lbs_header count hi lo rest =
    let mcc = be16 hi lo in
    not (ltb count 1 || ltb 6 count)
    && (not (mcc == 0 || ltb 999 mcc) && leb (count * 6) (length rest))

-- The loop of `findLBSHeader` from index `i`; the list is `rest[i:]`.
unfoldable pub lbs_header_from : ℕ → Bytes → Option ℕ
lbs_header_from i (count ∷ hi ∷ lo ∷ mnc ∷ rest) =
    if is_lbs_header count hi lo rest
    then some i
    else lbs_header_from (i + 1) (hi ∷ lo ∷ mnc ∷ rest)
lbs_header_from i _ = none

-- `none` stands for the -1 of the source.
unfoldable pub find_lbs_header : Bytes → Option ℕ
unfolding lbs_header_from is_lbs_header
find_lbs_header rest = lbs_header_from 0 rest

-- `cellSize`: 7, or 6 where only cells of 6 bytes fit.
unfoldable pub cell_size : ℕ → Bytes → ℕ
cell_size count lbs =
    if ltb (length lbs) (4 + count * 7) && leb (4 + count * 6) (length lbs) then 6 else 7
