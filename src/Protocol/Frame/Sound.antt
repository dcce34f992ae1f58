-- ===== src/Protocol/Frame/Sound.antt =====
-- What the results of `ExtractFrame` guarantee to its callers.
use mathlib.Core.Path.{subst, subst₂}
use zx909_gw.Prelude.{
  ℕ, ◌+◌, ◌≤◌, ◌<◌, ◌≡◌, refl, ap, ◌∙◌, sym, inl, inr, Bool, true, false, ◌++◌, ◌⊎◌, Option, none,
  some, arith, ◌==◌, if◌then◌else◌, length, take, drop, length-append, append_assoc,
}
use zx909_gw.Bytes.{Bytes, crlf}
use zx909_gw.Protocol.Lbs.{find_lbs_header}
use zx909_gw.Protocol.Frame.{
  Frame, FrameError, Extracted, frame, fault, incomplete, bad_header, content_bounds, is_wifi_lbs,
  is_gps, lbs_bounds, lbs_bounds_at, wifi_lbs_content_bounds, extract_frame, find_start,
}
use zx909_gw.Protocol.Frame.Cut.{lead, prefix_of, floor, framed, CutsAt}
use zx909_gw.Protocol.Frame.Extract.{
  content_floor, Ending, waits, resyncs, cuts, extract_frame-Ending,
}

-- The least number of body bytes of each protocol, by the packet layouts.
abbrev pub min_body : ℕ → ℕ
min_body p =
    if p == 0x01
    then 9
    else if p == 0x13
    then 4
    else if is_gps p
    then 18
    else if is_wifi_lbs p
    then 6
    else if p == 0xB3
    then 1
    else 0

lbs_bounds-floor : (start : ℕ) (lbs : Bytes) → 6 ≤ floor (lbs_bounds start lbs)
unfolding lbs_bounds
lbs_bounds-floor start lbs = ground arith

lbs_bounds_at-floor : (s : Option ℕ) (rest : Bytes) → 6 ≤ floor (lbs_bounds_at s rest)
unfolding lbs_bounds_at
lbs_bounds_at-floor none rest = omega arith
lbs_bounds_at-floor (some start) rest = lbs_bounds-floor start (drop start rest)

wifi_lbs_content_bounds-floor : (c : Bytes) → 6 ≤ floor (wifi_lbs_content_bounds c)
unfolding wifi_lbs_content_bounds
wifi_lbs_content_bounds-floor c =
    ground (arith, lbs_bounds_at-floor (find_lbs_header (drop 6 c)) (drop 6 c))

min_body-le : (p : ℕ) (content : Bytes) → min_body p ≤ content_floor p content
unfolding content_bounds
min_body-le p content = ground (arith, wifi_lbs_content_bounds-floor content)

-- The frame `f`, of `n` bytes, stands at the front of `buf`.
pub record IsFront (buf : Bytes) (f : Frame) (n : ℕ) : Type 0 where
  pub ext : Bool
  pub len_hi : ℕ
  pub len_lo : ℕ
  pub rest : Bytes
  pub is_framed : f ≡ framed ext len_hi len_lo f.proto f.body
  pub splits : buf ≡ f.raw ++ rest
  pub consumed : n ≡ length f.raw
  pub body_min : min_body f.proto ≤ length f.body

pub length-framed :
    (ext : Bool) (l m p : ℕ) (body : Bytes)
    → length (framed ext l m p body).raw ≡ prefix_of ext + length body + 2
length-framed false l m p body = omega (arith, length-append body crlf)
length-framed true l m p body = omega (arith, length-append body crlf)

framed-IsFront :
    (ext : Bool) (l m p : ℕ) (content : Bytes) (c : CutsAt (content_floor p content) content)
    → IsFront
        (lead ext l m p ++ content)
        (framed ext l m p c.body)
        (prefix_of ext + length c.body + 2)
framed-IsFront ext l m p content c = record {
  ext = ext;
  len_hi = l;
  len_lo = m;
  rest = c.rest;
  is_framed = refl;
  splits =
      ap (λ xs. lead ext l m p ++ xs) (c.splits ∙ sym (append_assoc c.body crlf c.rest))
      ∙ sym (append_assoc (lead ext l m p) (c.body ++ crlf) c.rest);
  consumed = sym (length-framed ext l m p c.body);
  body_min = omega (arith, min_body-le p content, c.long);
}

Ending-IsFront :
    {buf : Bytes} {x : Extracted} {f : Frame} {n : ℕ}
    → Ending buf x
    → x ≡ frame f n
    → IsFront buf f n
Ending-IsFront waits e = absurd (cc)
Ending-IsFront (resyncs _ _ _ _ _) e = absurd (cc)
Ending-IsFront {f} {n} (cuts ext l m p {content} c) e =
    let same : framed ext l m p c.body ≡ f = cc e in
    let same_n : prefix_of ext + length c.body + 2 ≡ n = cc e in
    subst₂ (IsFront (lead ext l m p ++ content)) same same_n (framed-IsFront ext l m p content c)

-- A frame that a buffer gives is the front of the buffer: its raw bytes are a header, the length
-- bytes, the protocol number, the body and the trailer, they are exactly the consumed bytes, the
-- serial is 0, and the body has at least the length that the layout of the protocol asks for.
pub extract_frame-IsFront :
    (buf : Bytes) {f : Frame} {n : ℕ} → extract_frame buf ≡ frame f n → IsFront buf f n
extract_frame-IsFront buf e = Ending-IsFront (extract_frame-Ending buf) e

-- What an error tells the caller to drop.
abbrev pub Faults : Bytes → FrameError → ℕ → Type 0
Faults buf e n =
    ((e ≡ incomplete) × (n ≡ 0))
    ⊎ ((e ≡ bad_header) × ((0 < n) × (n ≤ length buf) × (find_start (take n buf) ≡ none)))

Ending-Faults :
    {buf : Bytes} {x : Extracted} {e : FrameError} {n : ℕ}
    → Ending buf x
    → x ≡ fault e n
    → Faults buf e n
Ending-Faults waits h = inl (cc, cc)
Ending-Faults (resyncs buf n pos fits empty) h = inr (
  cc,
  subst (λ k. (0 < k) × (k ≤ length buf) × (find_start (take k buf) ≡ none)) (cc h)
      (pos, fits, empty),
)
Ending-Faults (cuts _ _ _ _ _) h = absurd (cc)

-- An error is either "incomplete", which consumes nothing, or "bad header", which consumes one byte
-- or more of the buffer, and no header stands among the consumed bytes.
pub extract_frame-Faults :
    (buf : Bytes) {e : FrameError} {n : ℕ} → extract_frame buf ≡ fault e n → Faults buf e n
extract_frame-Faults buf h = Ending-Faults (extract_frame-Ending buf) h
