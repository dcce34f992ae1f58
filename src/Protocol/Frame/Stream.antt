-- ===== src/Protocol/Frame/Stream.antt =====
-- `ExtractFrame` on a stream: a framed packet is read back, and what follows it does not matter.
use zx909_gw.Prelude.{
  ℕ, ◌+◌, ◌≤◌, ◌≡◌, ap, ◌∙◌, Bool, false, [], ◌∷◌, ◌++◌, arith, length, drop, append_assoc,
}
use zx909_gw.Bytes.{Bytes}
use zx909_gw.Protocol.Frame.{Frame, Extracted, frame, content_bounds, is_wifi_lbs, extract_frame}
use zx909_gw.Protocol.Frame.Scan.{has_crlf}
use zx909_gw.Protocol.Frame.Cut.{lead, prefix_of, framed, cut_by_trailer_complete}
use zx909_gw.Protocol.Frame.Extract.{
  content_floor, extract_frame-lead, Ending, waits, resyncs, cuts, extract_frame-Ending,
}

-- A packet whose body holds no trailer behind the floor is read back whole, whatever follows it.
pub extract_frame-framed :
    (ext : Bool) (l m p : ℕ) (body rest : Bytes)
    → content_floor p (body ++ (0x0D ∷ 0x0A ∷ rest)) ≤ length body
    → has_crlf (drop (content_floor p (body ++ (0x0D ∷ 0x0A ∷ rest))) body) ≡ false
    → extract_frame (lead ext l m p ++ (body ++ (0x0D ∷ 0x0A ∷ rest)))
      ≡ frame (framed ext l m p body) (prefix_of ext + length body + 2)
extract_frame-framed ext l m p [] rest h clean =
    extract_frame-lead ext l m p 0x0D (0x0A ∷ rest)
    ∙ cut_by_trailer_complete ext l m p _ [] rest h clean
extract_frame-framed ext l m p (b ∷ bs) rest h clean =
    extract_frame-lead ext l m p b (bs ++ (0x0D ∷ 0x0A ∷ rest))
    ∙ cut_by_trailer_complete ext l m p _ (b ∷ bs) rest h clean

-- Outside the Wi-Fi / LBS family the floor is a constant of the protocol number.
pub content_floor-const :
    (p : ℕ) (content : Bytes) → is_wifi_lbs p ≡ false → content_floor p content ≡ content_floor p []
unfolding content_bounds
content_floor-const p content h = ground arith

-- Outside the Wi-Fi / LBS family, a packet with either header, any length bytes, and a body that
-- reaches the floor of its protocol and holds no trailer from there on, is read back whole from a
-- buffer that it starts, whatever bytes follow it, and exactly its bytes are consumed.
pub extract_frame-roundtrip :
    (ext : Bool) (l m p : ℕ) (body rest : Bytes)
    → is_wifi_lbs p ≡ false
    → content_floor p [] ≤ length body
    → has_crlf (drop (content_floor p []) body) ≡ false
    → extract_frame (lead ext l m p ++ (body ++ (0x0D ∷ 0x0A ∷ rest)))
      ≡ frame (framed ext l m p body) (prefix_of ext + length body + 2)
extract_frame-roundtrip ext l m p body rest fixed h clean =
    let e = content_floor-const p (body ++ (0x0D ∷ 0x0A ∷ rest)) fixed in
    extract_frame-framed ext l m p body rest (rw e h) (rw e clean)

Ending-append :
    {buf : Bytes} {x : Extracted} (more : Bytes) {f : Frame} {n : ℕ}
    → Ending buf x
    → x ≡ frame f n
    → is_wifi_lbs f.proto ≡ false
    → extract_frame (buf ++ more) ≡ frame f n
Ending-append more waits e fixed = cc
Ending-append more (resyncs _ _ _ _ _) e fixed = cc
Ending-append more {f} (cuts ext l m p {content} c) e fixed =
    let same : framed ext l m p c.body ≡ f = cc e in
    let fixed' : is_wifi_lbs p ≡ false = ap (λ (g : Frame). is_wifi_lbs g.proto) same ∙ fixed in
    let floors = content_floor-const p content fixed' in
    ap extract_frame (append_assoc (lead ext l m p) content more)
    ∙ ap (λ xs. extract_frame (lead ext l m p ++ xs))
        (ap (λ xs. xs ++ more) c.splits ∙ append_assoc c.body (0x0D ∷ 0x0A ∷ c.rest) more)
    ∙ extract_frame-roundtrip ext l m p c.body (c.rest ++ more) fixed' (rw floors at c.long)
        (rw floors at c.is_first)
    ∙ e

-- A frame outside the Wi-Fi / LBS family that a buffer gives is given by every extension of the
-- buffer, with the same number of consumed bytes.
pub extract_frame-append :
    (buf more : Bytes) {f : Frame} {n : ℕ}
    → extract_frame buf ≡ frame f n
    → is_wifi_lbs f.proto ≡ false
    → extract_frame (buf ++ more) ≡ frame f n
extract_frame-append buf more e fixed = Ending-append more (extract_frame-Ending buf) e fixed
