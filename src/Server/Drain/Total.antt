-- ===== src/Server/Drain/Total.antt =====
-- `drainFrames` ends: each round takes bytes away, and the fuel that the read loop gives suffices.
use zx909_gw.Prelude.{
  ℕ, zero, suc, ◌+◌, ◌≤◌, ◌<◌, ◌≡◌, ◌≢◌, refl, ap, ◌∙◌, inl, inr, Bool, some, arith, length, drop,
  length-append, length-drop,
}
use zx909_gw.Bytes.{Bytes}
use zx909_gw.Platform.{Platform}
use zx909_gw.Protocol.Frame.{
  Frame, FrameError, incomplete, bad_header, bad_trailer, bad_crc, bad_length, Extracted, frame,
  fault, extract_frame,
}
use zx909_gw.Protocol.Frame.Cut.{prefix_of}
use zx909_gw.Protocol.Frame.Sound.{extract_frame-IsFront, extract_frame-Faults, length-framed}
use zx909_gw.Server.State.{Server, World}
use zx909_gw.Server.Handle.{Conn, handle_frame}
use zx909_gw.Server.Drain.{Drained, resync, drain_frames}

prefix_of-ge : (ext : Bool) → 4 ≤ prefix_of ext
prefix_of-ge ext = ground arith

-- A frame takes at least six bytes, and no more than there are.
pub extract_frame-consumed :
    (buf : Bytes) {f : Frame} {n : ℕ} → extract_frame buf ≡ frame f n → (6 ≤ n) × (n ≤ length buf)
extract_frame-consumed buf {f} {n} e =
    let r = extract_frame-IsFront buf e in
    let whole = ap length r.splits in
    let size = ap (λ (g : Frame). length g.raw) r.is_framed in
    let framed_size = length-framed r.ext r.len_hi r.len_lo f.proto f.body in
    (
      omega (arith, r.consumed, size, framed_size, prefix_of-ge r.ext),
      omega (arith, r.consumed, whole, length-append f.raw r.rest),
    )

-- So does the resync after an error.
pub resync-lt :
    (buf : Bytes) {e : FrameError} {n : ℕ}
    → extract_frame buf ≡ fault e n
    → e ≢ incomplete
    → length (resync n buf) < length buf
unfolding resync
resync-lt buf {e} {n} h other = elim (extract_frame-Faults buf h) [
  | inl (same, _) ↦ absurd (other same)
  | inr (_, (pos, fits, _)) ↦ ground (arith, length-drop n buf)
]

waits_zero :
    (buf : Bytes) (n : ℕ)
    → extract_frame buf ≡ fault incomplete n
    → extract_frame buf ≡ fault incomplete 0
waits_zero buf n h = elim (extract_frame-Faults buf h) [
  | inl (_, none_left) ↦ h ∙ ap (fault incomplete) none_left
  | inr (other, _) ↦ absurd (cc)
]

drop_lt : (buf : Bytes) (n : ℕ) → (6 ≤ n) × (n ≤ length buf) → length (drop n buf) < length buf
drop_lt buf n h = omega (arith, length-drop n buf)

-- The three ways in which a round of the loop may go.
pub data Round (buf : Bytes) : Type 0 where
  stops : (n : ℕ) → extract_frame buf ≡ fault incomplete n → Round buf
  skips : (e : FrameError) (n : ℕ) → extract_frame buf ≡ fault e n → e ≢ incomplete → Round buf
  takes : (f : Frame) (n : ℕ) → extract_frame buf ≡ frame f n → Round buf

Round-of : (buf : Bytes) (x : Extracted) → extract_frame buf ≡ x → Round buf
Round-of buf (frame f n) h = takes f n h
Round-of buf (fault incomplete n) h = stops n h
Round-of buf (fault bad_header n) h = skips bad_header n h (λ e. cc)
Round-of buf (fault bad_trailer n) h = skips bad_trailer n h (λ e. cc)
Round-of buf (fault bad_crc n) h = skips bad_crc n h (λ e. cc)
Round-of buf (fault bad_length n) h = skips bad_length n h (λ e. cc)

pub round : (buf : Bytes) → Round buf
round buf = Round-of buf (extract_frame buf) refl

module _ (P : Platform) where
  pub drain_frames-stops :
      (fuel : ℕ) (ws : ℕ → World P) (i : ℕ) (buf : Bytes) (c : Conn) (s : Server P) (n : ℕ)
      → extract_frame buf ≡ fault incomplete n
      → drain_frames P (suc fuel) ws i buf c s ≡ some (record { rest = buf; conn = c; server = s })
  unfolding drain_frames
  drain_frames-stops fuel ws i buf c s n h = rw (h, drain_frames)

  pub drain_frames-takes :
      (fuel : ℕ) (ws : ℕ → World P) (i : ℕ) (buf : Bytes) (c : Conn) (s : Server P) (f : Frame)
      (n : ℕ)
      → extract_frame buf ≡ frame f n
      → drain_frames P (suc fuel) ws i buf c s
        ≡ drain_frames P fuel ws
            (i + 1)
            (drop n buf)
            (handle_frame P (ws i) f c s).0
            (handle_frame P (ws i) f c s).1
  unfolding drain_frames
  drain_frames-takes fuel ws i buf c s f n h = rw (h, drain_frames)

  pub drain_frames-skips :
      (fuel : ℕ) (ws : ℕ → World P) (i : ℕ) (buf : Bytes) (c : Conn) (s : Server P) (e : FrameError)
      (n : ℕ)
      → extract_frame buf ≡ fault e n
      → e ≢ incomplete
      → drain_frames P (suc fuel) ws i buf c s ≡ drain_frames P fuel ws (i + 1) (resync n buf) c s
  unfolding drain_frames
  drain_frames-skips fuel ws i buf c s incomplete n h other = absurd (other refl)
  drain_frames-skips fuel ws i buf c s bad_header n h other = rw (h, drain_frames)
  drain_frames-skips fuel ws i buf c s bad_trailer n h other = rw (h, drain_frames)
  drain_frames-skips fuel ws i buf c s bad_crc n h other = rw (h, drain_frames)
  drain_frames-skips fuel ws i buf c s bad_length n h other = rw (h, drain_frames)

  -- The result of the loop, and bytes left that wait for more.
  pub record Finishes (fuel : ℕ) (ws : ℕ → World P) (i : ℕ) (buf : Bytes) (c : Conn) (s : Server P)
      : Type 0 where
    pub result : Drained P
    pub finishes : drain_frames P fuel ws i buf c s ≡ some result
    pub waits : extract_frame result.rest ≡ fault incomplete 0
    pub shorter : length result.rest ≤ length buf

  Finishes-step :
      (fuel : ℕ) (ws : ℕ → World P) (i : ℕ) (buf : Bytes) (c : Conn) (s : Server P) (j : ℕ)
      (buf' : Bytes) (c' : Conn) (s' : Server P)
      → length buf' < length buf
      → drain_frames P (suc fuel) ws i buf c s ≡ drain_frames P fuel ws j buf' c' s'
      → Finishes fuel ws j buf' c' s'
      → Finishes (suc fuel) ws i buf c s
  Finishes-step fuel ws i buf c s j buf' c' s' lt e r = record {
    result = r.result;
    finishes = e ∙ r.finishes;
    waits = r.waits;
    shorter = omega (arith, r.shorter);
  }

  -- With more fuel than there are bytes, the loop ends with a result, whatever the frames and the
  -- environment do; the bytes that are left are no more than there were, and wait for more input.
  pub drain_frames-Finishes :
      (fuel : ℕ) (ws : ℕ → World P) (i : ℕ) (buf : Bytes) (c : Conn) (s : Server P)
      → length buf < fuel
      → Finishes fuel ws i buf c s
  drain_frames-Finishes zero ws i buf c s h = absurd (omega arith)
  drain_frames-Finishes (suc fuel) ws i buf c s h = elim (round buf) [
    | stops n e ↦ record {
      result = record { rest = buf; conn = c; server = s };
      finishes = drain_frames-stops fuel ws i buf c s n e;
      waits = waits_zero buf n e;
      shorter = omega arith;
    }
    | skips e n x other ↦
        let lt = resync-lt buf x other in
        Finishes-step fuel ws i buf c s (i + 1) (resync n buf) c s lt
          (drain_frames-skips fuel ws i buf c s e n x other)
          (drain_frames-Finishes fuel ws (i + 1) (resync n buf) c s (omega arith))
    | takes f n x ↦
        let r = handle_frame P (ws i) f c s in
        let lt = drop_lt buf n (extract_frame-consumed buf x) in
        Finishes-step fuel ws i buf c s (i + 1) (drop n buf) r.0 r.1 lt
          (drain_frames-takes fuel ws i buf c s f n x)
          (drain_frames-Finishes fuel ws (i + 1) (drop n buf) r.0 r.1 (omega arith))
  ]
