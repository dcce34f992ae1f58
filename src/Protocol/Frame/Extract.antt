-- ===== src/Protocol/Frame/Extract.antt =====
-- `ExtractFrame` as a whole: what a frame, an error and a longer buffer say.
use zx909_gw.Prelude.{
  ℕ, zero, suc, ◌+◌, ◌≤◌, ◌<◌, ◌≡◌, ap, ◌∙◌, inl, inr, Bool, true, false, [], ◌∷◌, ◌++◌, Option,
  none, some, arith, if◌then◌else◌, Option-cases, length, take, take-length, le→ltb,
}
use zx909_gw.Bytes.{Bytes}
use zx909_gw.Protocol.Frame.{
  Extracted, frame, fault, incomplete, bad_header, cut_by_trailer, cut_by_bounds, content_bounds,
  extract_from, extract_frame, find_start,
}
use zx909_gw.Protocol.Frame.Scan.{find_start_lt, find_start-take, find_start-zero}
use zx909_gw.Protocol.Frame.Cut.{
  lead, header_of, prefix_of, floor, framed, cut_by_bounds-cut_by_trailer, CutsAt,
  cut_by_trailer_cases,
}

-- The number of content bytes of protocol `p` that no trailer may interrupt.
abbrev pub content_floor : ℕ → Bytes → ℕ
content_floor p content = floor (content_bounds p content)

-- A buffer that starts with a header and holds a content byte is cut at the first trailer.
pub extract_frame-lead :
    (ext : Bool) (l m p c : ℕ) (cs : Bytes)
    → extract_frame (lead ext l m p ++ (c ∷ cs))
      ≡ cut_by_trailer
          (header_of ext)
          (prefix_of ext)
          (lead ext l m p ++ (c ∷ cs))
          (content_floor p (c ∷ cs))
extract_frame-lead false l m p c cs =
    unfold extract_frame find_start cut_by_bounds in
    ground (
      arith,
      cut_by_bounds-cut_by_trailer 0x7878 4 (lead false l m p ++ (c ∷ cs))
          (content_bounds p (c ∷ cs)),
    )
extract_frame-lead true l m p c cs =
    unfold extract_frame find_start cut_by_bounds in
    ground (
      arith,
      cut_by_bounds-cut_by_trailer 0x7979 5 (lead true l m p ++ (c ∷ cs))
          (content_bounds p (c ∷ cs)),
    )

-- The ways in which `ExtractFrame` ends.
pub data Ending : Bytes → Extracted → Type 0 where
  waits : {buf : Bytes} → Ending buf (fault incomplete 0)
  resyncs :
      (buf : Bytes) (n : ℕ)
      → 0 < n
      → n ≤ length buf
      → find_start (take n buf) ≡ none
      → Ending buf (fault bad_header n)
  cuts :
      (ext : Bool) (l m p : ℕ) {content : Bytes} (c : CutsAt (content_floor p content) content)
      → Ending
          (lead ext l m p ++ content)
          (frame (framed ext l m p c.body) (prefix_of ext + length c.body + 2))

lead-Ending :
    (ext : Bool) (l m p c : ℕ) (cs : Bytes)
    → Ending (lead ext l m p ++ (c ∷ cs)) (extract_frame (lead ext l m p ++ (c ∷ cs)))
lead-Ending ext l m p c cs =
    rw (extract_frame-lead ext l m p c cs)
      (elim (cut_by_trailer_cases ext l m p (content_floor p (c ∷ cs)) (c ∷ cs)) [
        | inl e ↦ rw e waits
        | inr (k, e) ↦ rw e (cuts ext l m p k)
      ])

header-Ending :
    (ext : Bool) (c d e : ℕ) (r : Bytes)
    → (let mark : ℕ = if ext then 0x79 else 0x78 in
        Ending (mark ∷ mark ∷ c ∷ d ∷ e ∷ r) (extract_frame (mark ∷ mark ∷ c ∷ d ∷ e ∷ r)))
header-Ending false c d e r = lead-Ending false c 0 d e r
header-Ending true c d e [] = unfold extract_frame find_start in waits
header-Ending true c d e (f ∷ r) = lead-Ending true c d e f r

extract_frame-extract_from :
    (a b c d e : ℕ) (r : Bytes) (s : Option ℕ)
    → find_start (a ∷ b ∷ c ∷ d ∷ e ∷ r) ≡ s
    → extract_frame (a ∷ b ∷ c ∷ d ∷ e ∷ r) ≡ extract_from s (a ∷ b ∷ c ∷ d ∷ e ∷ r)
unfolding extract_frame
extract_frame-extract_from a b c d e r s found =
    rw (le→ltb (length (a ∷ b ∷ c ∷ d ∷ e ∷ r)) 5 (omega arith), found)

found-Ending :
    (a b c d e i : ℕ) (r : Bytes)
    → find_start (a ∷ b ∷ c ∷ d ∷ e ∷ r) ≡ some i
    → Ending (a ∷ b ∷ c ∷ d ∷ e ∷ r) (extract_frame (a ∷ b ∷ c ∷ d ∷ e ∷ r))
found-Ending a b c d e zero r h = elim (find_start-zero a b (c ∷ d ∷ e ∷ r) h) [
  | inl (x, y) ↦ rw (x, y) (header-Ending false c d e r)
  | inr (x, y) ↦ rw (x, y) (header-Ending true c d e r)
]
found-Ending a b c d e (suc i) r h =
    let lt = find_start_lt (a ∷ b ∷ c ∷ d ∷ e ∷ r) (suc i) h in
    rw (extract_frame-extract_from a b c d e r (some (suc i)) h) (
      unfold extract_from in
      resyncs (a ∷ b ∷ c ∷ d ∷ e ∷ r) (suc i) (omega arith) (omega arith)
        (find_start-take _ (suc i) h))

-- On every buffer `ExtractFrame` does one of three things: it waits and drops nothing; it asks to
-- drop one byte or more of the buffer, which hold no header; or the buffer starts with a header and
-- it gives the frame that ends at the first trailer at or behind the content floor. Its other errors
-- do not occur.
pub extract_frame-Ending : (buf : Bytes) → Ending buf (extract_frame buf)
extract_frame-Ending (a ∷ b ∷ c ∷ d ∷ e ∷ r) =
    elim (Option-cases (find_start (a ∷ b ∷ c ∷ d ∷ e ∷ r))) [
      | inl none_found ↦ rw (extract_frame-extract_from a b c d e r none none_found) (
          unfold extract_from in
          resyncs (a ∷ b ∷ c ∷ d ∷ e ∷ r) (length (a ∷ b ∷ c ∷ d ∷ e ∷ r)) (omega arith)
            (omega arith) (ap find_start (take-length _) ∙ none_found))
      | inr (i, found) ↦ found-Ending a b c d e i r found
    ]
extract_frame-Ending [] = unfold extract_frame in waits
extract_frame-Ending (a ∷ []) = unfold extract_frame in waits
extract_frame-Ending (a ∷ b ∷ []) = unfold extract_frame in waits
extract_frame-Ending (a ∷ b ∷ c ∷ []) = unfold extract_frame in waits
extract_frame-Ending (a ∷ b ∷ c ∷ d ∷ []) = unfold extract_frame in waits
