-- ===== src/Protocol/Frame/Cut.antt =====
-- Where `ExtractFrame` cuts a buffer that starts with a header.
use zx909_gw.Prelude.{
  ℕ, zero, suc, ◌+◌, ◌-◌, ◌≤◌, ◌≡◌, refl, ap, ◌∙◌, sym, inl, inr, Bool, true, false, [], ◌∷◌, ◌++◌,
  ◌⊎◌, none, some, arith, ltb, if◌then◌else◌, Bool-cases, Option-cases, length, take, drop,
  length-append, length-take, length-drop, take-append, drop-append, drop-append_le,
  take-append-drop, append_assoc, ltb→le,
}
use native.Mathlib.Nat.{add_assoc}
use zx909_gw.Bytes.{Bytes, at, crlf}
use zx909_gw.Protocol.Frame.{
  Frame, frame, fault, incomplete, Bounds, header_short, header_ext, frame_from_raw, cut_by_trailer,
  cut_by_bounds, find_trailer, trailer_from, slice,
}
use zx909_gw.Protocol.Frame.Scan.{
  has_crlf, trailer_from-append, FirstTrailer, trailer_from-FirstTrailer,
}

-- The bytes before the content: header, length byte or bytes, protocol number.
abbrev pub lead : Bool → ℕ → ℕ → ℕ → Bytes
lead false l m p = 0x78 ∷ 0x78 ∷ l ∷ p ∷ []
lead true l m p = 0x79 ∷ 0x79 ∷ l ∷ m ∷ p ∷ []

abbrev pub header_of : Bool → ℕ
header_of false = header_short
header_of true = header_ext

abbrev pub prefix_of : Bool → ℕ
prefix_of false = 4
prefix_of true = 5

-- The content offset from which a trailer is looked for.
abbrev pub floor : Bounds → ℕ
floor b = if b.known then elim b.exact [ none ↦ b.min | some exact ↦ exact ] else 0

-- The frame whose bytes are `lead`, a body and the trailer.
abbrev pub framed : Bool → ℕ → ℕ → ℕ → Bytes → Frame
framed ext l m p body = record {
  proto = p;
  body = body;
  serial = 0;
  raw = lead ext l m p ++ (body ++ crlf);
}

length_body : (body : Bytes) → length (body ++ crlf) ≡ length body + 2
length_body body = length-append body crlf

slice-lead :
    (ext : Bool) (l m p : ℕ) (body : Bytes)
    → slice
        (prefix_of ext)
        (length (lead ext l m p ++ (body ++ crlf)) - 2)
        (lead ext l m p ++ (body ++ crlf))
      ≡ body
slice-lead false l m p body =
    let e : length (lead false l m p ++ (body ++ crlf)) - 2 ≡ suc (suc (suc (suc (length body)))) =
      omega (arith, length_body body) in
    rw e (take-append body crlf)
slice-lead true l m p body =
    let e : length (lead true l m p ++ (body ++ crlf)) - 2
        ≡ suc (suc (suc (suc (suc (length body))))) =
      omega (arith, length_body body) in
    rw e (take-append body crlf)

pub frame_from_raw-lead :
    (ext : Bool) (l m p : ℕ) (body : Bytes)
    → frame_from_raw (lead ext l m p ++ (body ++ crlf)) (header_of ext)
      ≡ frame (framed ext l m p body) (prefix_of ext + length body + 2)
unfolding frame_from_raw
frame_from_raw-lead false l m p body = ground (arith, slice-lead false l m p body, length_body body)
frame_from_raw-lead true l m p body = ground (arith, slice-lead true l m p body, length_body body)

trailer_from-drop :
    (n i : ℕ) (xs : Bytes)
    → at xs n ≡ 0x0D
    → at xs (n + 1) ≡ 0x0A
    → n + 2 ≤ length xs
    → trailer_from i (drop n xs) ≡ some (i + 2)
unfolding trailer_from
trailer_from-drop zero i (x ∷ y ∷ xs) p q h = ground arith
trailer_from-drop zero i (x ∷ []) p q h = absurd (omega arith)
trailer_from-drop n i [] p q h = absurd (omega arith)
trailer_from-drop (suc n) i (x ∷ xs) p q h = trailer_from-drop n i xs p (ground arith) (omega arith)

-- For every header, prefix length, buffer and bounds, the branches of the cut on an exact and on a
-- least content length give the result of one search for the first trailer from the floor of the
-- bounds on: the exact path is a shortcut and never a different answer.
pub cut_by_bounds-cut_by_trailer :
    (header prefix : ℕ) (buf : Bytes) (b : Bounds)
    → cut_by_bounds header prefix buf b ≡ cut_by_trailer header prefix buf (floor b)
unfolding cut_by_bounds find_trailer
cut_by_bounds-cut_by_trailer header prefix buf b = elim (Bool-cases b.known) [
  | inl known ↦ elim (Option-cases b.exact) [
    | inl e ↦ ground arith
    | inr (n, e) ↦ ground (arith, trailer_from-drop n n (drop prefix buf), add_assoc prefix n 2)
  ]
  | inr unknown ↦ ground arith
]

pub drop-lead :
    (ext : Bool) (l m p : ℕ) (xs : Bytes) → drop (prefix_of ext) (lead ext l m p ++ xs) ≡ xs
drop-lead false l m p xs = refl
drop-lead true l m p xs = refl

take-lead :
    (ext : Bool) (l m p k : ℕ) (xs : Bytes)
    → take (prefix_of ext + k) (lead ext l m p ++ xs) ≡ lead ext l m p ++ take k xs
take-lead false l m p k xs = let e : 4 + k ≡ suc (suc (suc (suc k))) = omega arith in rw e
take-lead true l m p k xs = let e : 5 + k ≡ suc (suc (suc (suc (suc k)))) = omega arith in rw e

take_body :
    (body rest : Bytes) → take (length body + 2) (body ++ (0x0D ∷ 0x0A ∷ rest)) ≡ body ++ crlf
take_body body rest =
    rw (← length_body body, ← append_assoc body crlf rest) (take-append (body ++ crlf) rest)

-- What is cut off behind a trailer that ends at `length body + 2` is the frame of the body.
cut_body :
    (ext : Bool) (l m p : ℕ) (body rest : Bytes)
    → frame_from_raw
        (take
          (prefix_of ext + (length body + 2))
          (lead ext l m p ++ (body ++ (0x0D ∷ 0x0A ∷ rest))))
        (header_of ext)
      ≡ frame (framed ext l m p body) (prefix_of ext + length body + 2)
cut_body ext l m p body rest = rw (take-lead, take_body) (frame_from_raw-lead ext l m p body)

trailer_from-body :
    (least : ℕ) (body rest : Bytes)
    → least ≤ length body
    → has_crlf (drop least body) ≡ false
    → trailer_from least (drop least (body ++ (0x0D ∷ 0x0A ∷ rest))) ≡ some (length body + 2)
trailer_from-body least body rest h clean =
    rw
      (
        drop-append_le least body (0x0D ∷ 0x0A ∷ rest) h,
        trailer_from-append least (drop least body) rest clean,
      )
      (ap some (omega (arith, length-drop least body)))

pub cut_by_trailer_complete :
    (ext : Bool) (l m p least : ℕ) (body rest : Bytes)
    → least ≤ length body
    → has_crlf (drop least body) ≡ false
    → cut_by_trailer
        (header_of ext)
        (prefix_of ext)
        (lead ext l m p ++ (body ++ (0x0D ∷ 0x0A ∷ rest)))
        least
      ≡ frame (framed ext l m p body) (prefix_of ext + length body + 2)
unfolding cut_by_trailer find_trailer
cut_by_trailer_complete ext l m p least body rest h clean = ground (
  arith,
  drop-lead ext l m p (body ++ (0x0D ∷ 0x0A ∷ rest)),
  length-append body (0x0D ∷ 0x0A ∷ rest),
  trailer_from-body least body rest h clean,
  cut_body ext l m p body rest,
)

-- The content splits at the first trailer from `least` on.
pub record CutsAt (least : ℕ) (content : Bytes) : Type 0 where
  pub body : Bytes
  pub rest : Bytes
  pub splits : content ≡ body ++ (0x0D ∷ 0x0A ∷ rest)
  pub long : least ≤ length body
  pub is_first : has_crlf (drop least body) ≡ false

CutsAt-of_trailer :
    (least r : ℕ) (content : Bytes)
    → least + 2 ≤ length content
    → trailer_from least (drop least content) ≡ some r
    → CutsAt least content
CutsAt-of_trailer least r content h hit = record {
  body = pre ++ t.before;
  rest = t.after;
  splits =
      sym (take-append-drop least content)
      ∙ ap (◌++◌ pre) t.splits
      ∙ sym (append_assoc pre t.before (0x0D ∷ 0x0A ∷ t.after));
  long = omega (arith, length-append pre t.before, size);
  is_first =
      ap (λ k. has_crlf (drop k (pre ++ t.before))) (sym size)
      ∙ ap has_crlf (drop-append pre t.before)
      ∙ t.is_first;
}
  where
    pre : Bytes
    pre = take least content

    size : length pre ≡ least
    size = omega (arith, length-take least content)

    t : FirstTrailer least (drop least content) r
    t = trailer_from-FirstTrailer least (drop least content) r hit

CutsAt-frame :
    (ext : Bool) (l m p least : ℕ) (content : Bytes) (c : CutsAt least content)
    → cut_by_trailer (header_of ext) (prefix_of ext) (lead ext l m p ++ content) least
      ≡ frame (framed ext l m p c.body) (prefix_of ext + length c.body + 2)
CutsAt-frame ext l m p least content c =
    ap (λ xs. cut_by_trailer (header_of ext) (prefix_of ext) (lead ext l m p ++ xs) least) c.splits
    ∙ cut_by_trailer_complete ext l m p least c.body c.rest c.long c.is_first

-- Behind a header the cut is a frame exactly where the content splits; else the frame is
-- incomplete.
pub cut_by_trailer_cases :
    (ext : Bool) (l m p least : ℕ) (content : Bytes)
    → (cut_by_trailer (header_of ext) (prefix_of ext) (lead ext l m p ++ content) least
        ≡ fault incomplete 0)
      ⊎ ((c : CutsAt least content) × (cut_by_trailer
              (header_of ext)
              (prefix_of ext)
              (lead ext l m p ++ content)
              least
            ≡ frame (framed ext l m p c.body) (prefix_of ext + length c.body + 2)))
cut_by_trailer_cases ext l m p least content =
    elim (Bool-cases (ltb (length content) (least + 2))) [
      | inl short ↦ inl (unfold cut_by_trailer in rw (drop-lead ext l m p content, short))
      | inr long ↦ elim (Option-cases (trailer_from least (drop least content))) [
        | inl miss ↦
            inl (unfold cut_by_trailer find_trailer in rw (drop-lead ext l m p content, long, miss))
        | inr (r, hit) ↦
            let c = CutsAt-of_trailer least r content (ltb→le _ _ long) hit in
            inr (c, CutsAt-frame ext l m p least content c)
      ]
    ]
