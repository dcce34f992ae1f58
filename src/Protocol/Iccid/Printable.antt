-- ===== src/Protocol/Iccid/Printable.antt =====
-- What `ParseICCID` returns and when it fails.
use mathlib.Core.Path.{subst}
use zx909_gw.Prelude.{
  ℕ, ◌≡◌, ◌≢◌, refl, inl, inr, true, [], ◌∷◌, ◌++◌, arith, ◌==◌, Bool-cases, length,
}
use zx909_gw.Bytes.{Bytes}
use zx909_gw.Protocol.Parsed.{ok}
use zx909_gw.Protocol.Iccid.{is_print, printable, parse_iccid}

abbrev pub AllPrint : Bytes → Type 0
AllPrint [] = Unit {0}
AllPrint (b ∷ bs) = (is_print b ≡ true) × AllPrint bs

-- No byte is zero.
abbrev pub NoZero : Bytes → Type 0
NoZero [] = Unit {0}
NoZero (b ∷ bs) = (b ≢ 0) × NoZero bs

printable-AllPrint : (bs : Bytes) → AllPrint (printable bs)
unfolding printable
printable-AllPrint [] = tt
printable-AllPrint (b ∷ bs) = elim (Bool-cases (b == 0)) [
  | inl stop ↦ rw stop tt
  | inr more ↦ rw more (elim (Bool-cases (is_print b)) [
    | inl shown ↦ rw shown (shown, printable-AllPrint bs)
    | inr hidden ↦ rw hidden (printable-AllPrint bs)
  ])
]

-- Printable bytes are kept in order up to the zero byte that ends them.
printable-zero : (xs tail : Bytes) → AllPrint xs → NoZero xs → printable (xs ++ (0 ∷ tail)) ≡ xs
unfolding printable
printable-zero [] tail h n = refl
printable-zero (x ∷ xs) tail h n = ground (arith, printable-zero xs tail h.1 n.1)

-- An ICCID of one or more printable bytes other than zero, followed by a zero byte and anything
-- behind it, is read back.
pub parse_iccid-roundtrip :
    (x : ℕ) (xs tail : Bytes)
    → AllPrint (x ∷ xs)
    → NoZero (x ∷ xs)
    → parse_iccid ((x ∷ xs) ++ (0 ∷ tail)) ≡ ok (x ∷ xs)
unfolding parse_iccid
parse_iccid-roundtrip x xs tail h n = ground (arith, printable-zero (x ∷ xs) tail h n)

parse_iccid-printable :
    (body : Bytes) {id : Bytes} → parse_iccid body ≡ ok id → (printable body ≡ id) × (length id ≢ 0)
unfolding parse_iccid
parse_iccid-printable body {id} e = (ground arith, ground arith)

-- An ICCID that is returned for a body is not empty and holds printable bytes only.
pub parse_iccid-AllPrint :
    (body : Bytes) {id : Bytes} → parse_iccid body ≡ ok id → AllPrint id × (length id ≢ 0)
parse_iccid-AllPrint body e =
    let r = parse_iccid-printable body e in (subst AllPrint r.0 (printable-AllPrint body), r.1)
