-- ===== src/Server/Drain/Prefix.antt =====
-- A packet of which a part has arrived is left in the buffer.
use zx909_gw.Prelude.{
  ℕ, ◌+◌, ◌≤◌, ◌<◌, ◌≡◌, refl, ap, ◌∙◌, sym, inl, inr, ◌⊎◌, Bool, true, false, [], ◌∷◌, ◌++◌, arith,
  length, length-append, drop, append_assoc, append-nil,
}
use zx909_gw.Bytes.{Bytes, crlf}
use zx909_gw.Protocol.Frame.{
  Frame, frame, incomplete, fault, is_wifi_lbs, extract_frame, find_start,
}
use zx909_gw.Protocol.Frame.Cut.{lead, framed, prefix_of, cut_by_trailer_cases}
use zx909_gw.Protocol.Frame.Extract.{content_floor, extract_frame-lead}
use zx909_gw.Protocol.Frame.Stream.{extract_frame-append}
use zx909_gw.Protocol.Packet.{Packet, frame_of, IsPlain, extract_frame-packet}
use zx909_gw.Protocol.Frame.Scan.{has_crlf}
use zx909_gw.Protocol.Packet.Observation.{Observation, content_of, packet_of, IsReadable}
use zx909_gw.Protocol.Packet.Streamed.{IsStreamed, plain, readable}
use zx909_gw.Server.Drain.Total.{extract_frame-consumed}

-- Two ways to split a list, the first before the second.
pub split_le :
    (xs ys us vs : Bytes)
    → xs ++ ys ≡ us ++ vs
    → length xs ≤ length us
    → (us ≡ xs ++ drop (length xs) us) × (ys ≡ drop (length xs) us ++ vs)
split_le [] ys us vs e h = (refl, e)
split_le (x ∷ xs) ys [] vs e h = absurd (omega arith)
split_le (x ∷ xs) ys (u ∷ us) vs e h =
    let heads : x ≡ u = cc e in
    let r = split_le xs ys us vs (cc e) (omega arith) in
    (ap (◌∷◌ u) r.0 ∙ ap (λ k. k ∷ (xs ++ drop (length xs) us)) (sym heads), r.1)

pub le_or_lt : (m n : ℕ) → (m ≤ n) ⊎ (n < m)
le_or_lt m n = ground arith

-- Less than a whole frame waits, once a content byte has arrived.
lead_waits :
    (ext : Bool) (l m p c : ℕ) (cs b : Bytes) {g : Frame} {n : ℕ}
    → is_wifi_lbs p ≡ false
    → extract_frame ((lead ext l m p ++ (c ∷ cs)) ++ b) ≡ frame g n
    → length (lead ext l m p ++ (c ∷ cs)) < n
    → extract_frame (lead ext l m p ++ (c ∷ cs)) ≡ fault incomplete 0
lead_waits ext l m p c cs b {g} {n} fixed whole short =
    let a = lead ext l m p ++ (c ∷ cs) in
    elim (cut_by_trailer_cases ext l m p (content_floor p (c ∷ cs)) (c ∷ cs)) [
      | inl e ↦ extract_frame-lead ext l m p c cs ∙ e
      | inr (k, e) ↦
          let now = extract_frame-lead ext l m p c cs ∙ e in
          let same : frame (framed ext l m p k.body) (prefix_of ext + length k.body + 2)
              ≡ frame g n =
            sym (extract_frame-append a b now fixed) ∙ whole in
          let size : prefix_of ext + length k.body + 2 ≡ n = cc same in
          absurd (omega (arith, extract_frame-consumed a now, size, short))
    ]

short_waits : (ext : Bool) (l m p : ℕ) → extract_frame (lead ext l m p) ≡ fault incomplete 0
unfolding extract_frame find_start
short_waits false l m p = refl
short_waits true l m p = refl

-- A prefix of a packet with the header and a content byte is made of these.
front_waits :
    (ext : Bool) (l m p w x y z c : ℕ) (content cs b : Bytes) {g : Frame} {n : ℕ}
    → is_wifi_lbs p ≡ false
    → lead ext l m p ++ content ≡ w ∷ x ∷ y ∷ z ∷ c ∷ (cs ++ b)
    → extract_frame (w ∷ x ∷ y ∷ z ∷ c ∷ (cs ++ b)) ≡ frame g n
    → length (w ∷ x ∷ y ∷ z ∷ c ∷ cs) < n
    → extract_frame (w ∷ x ∷ y ∷ z ∷ c ∷ cs) ≡ fault incomplete 0
front_waits false l m p w x y z c content cs b fixed e whole lt =
    let same : w ∷ x ∷ y ∷ z ∷ c ∷ cs ≡ lead false l m p ++ (c ∷ cs) = cc e in
    let same' : w ∷ x ∷ y ∷ z ∷ c ∷ (cs ++ b) ≡ (lead false l m p ++ (c ∷ cs)) ++ b = cc in
    ap extract_frame same
    ∙ lead_waits false l m p c cs b fixed (ap extract_frame (sym same') ∙ whole) lt
front_waits true l m p w x y z c content [] b fixed e whole lt =
    let same : w ∷ x ∷ y ∷ z ∷ c ∷ [] ≡ lead true l m p = cc e in
    ap extract_frame same ∙ short_waits true l m p
front_waits true l m p w x y z c content (d ∷ cs) b fixed e whole lt =
    let same : w ∷ x ∷ y ∷ z ∷ c ∷ d ∷ cs ≡ lead true l m p ++ (d ∷ cs) = cc e in
    let same' : w ∷ x ∷ y ∷ z ∷ c ∷ d ∷ (cs ++ b) ≡ (lead true l m p ++ (d ∷ cs)) ++ b = cc in
    ap extract_frame same
    ∙ lead_waits true l m p d cs b fixed (ap extract_frame (sym same') ∙ whole) lt

prefix_waits :
    (p : Packet) (a b : Bytes)
    → IsPlain p
    → (frame_of p).raw ≡ a ++ b
    → length a < length (frame_of p).raw
    → extract_frame a ≡ fault incomplete 0
prefix_waits p [] b h e lt = unfold extract_frame in refl
prefix_waits p (w ∷ []) b h e lt = unfold extract_frame in refl
prefix_waits p (w ∷ x ∷ []) b h e lt = unfold extract_frame in refl
prefix_waits p (w ∷ x ∷ y ∷ []) b h e lt = unfold extract_frame in refl
prefix_waits p (w ∷ x ∷ y ∷ z ∷ []) b h e lt = unfold extract_frame in refl
prefix_waits p (w ∷ x ∷ y ∷ z ∷ c ∷ cs) b h e lt =
    front_waits p.ext p.len_hi p.len_lo p.proto w x y z c (p.body ++ crlf) cs b h.not_wifi e
      (ap extract_frame (sym e)
        ∙ ap extract_frame (sym (append-nil (frame_of p).raw))
        ∙ extract_frame-packet p [] h)
      lt

-- A trailer is found wherever it stands.
has_crlf-trailer : (xs ys : Bytes) → has_crlf (xs ++ (0x0D ∷ 0x0A ∷ ys)) ≡ true
has_crlf-trailer [] ys = refl
has_crlf-trailer (x ∷ []) ys = ground arith
has_crlf-trailer (x ∷ y ∷ xs) ys = ground (arith, has_crlf-trailer (y ∷ xs) ys)

has_crlf-front : (xs ys : Bytes) → has_crlf (xs ++ ys) ≡ false → has_crlf xs ≡ false
has_crlf-front [] ys h = refl
has_crlf-front (x ∷ []) ys h = refl
has_crlf-front (x ∷ y ∷ xs) ys h = ground (arith, has_crlf-front (y ∷ xs) ys)

-- Behind a header, content without a trailer waits.
quiet_waits :
    (ext : Bool) (l m p c : ℕ) (cs : Bytes)
    → has_crlf (c ∷ cs) ≡ false
    → extract_frame (lead ext l m p ++ (c ∷ cs)) ≡ fault incomplete 0
quiet_waits ext l m p c cs quiet =
    elim (cut_by_trailer_cases ext l m p (content_floor p (c ∷ cs)) (c ∷ cs)) [
      | inl e ↦ extract_frame-lead ext l m p c cs ∙ e
      | inr (k, e) ↦
          let found : has_crlf (c ∷ cs) ≡ true =
            ap has_crlf k.splits ∙ has_crlf-trailer k.body k.rest in
          absurd (cc)
    ]

observation_waits :
    (o : Observation) (a b : Bytes)
    → IsReadable o
    → (frame_of (packet_of o)).raw ≡ a ++ b
    → length a < length (frame_of (packet_of o)).raw
    → extract_frame a ≡ fault incomplete 0
observation_waits o [] b h e lt = unfold extract_frame in refl
observation_waits o (w ∷ []) b h e lt = unfold extract_frame in refl
observation_waits o (w ∷ x ∷ []) b h e lt = unfold extract_frame in refl
observation_waits o (w ∷ x ∷ y ∷ []) b h e lt = unfold extract_frame in refl
observation_waits o (w ∷ x ∷ y ∷ z ∷ []) b h e lt = unfold extract_frame in refl
observation_waits o (w ∷ x ∷ y ∷ z ∷ c ∷ cs) b h e lt =
    let body = content_of o in
    let same : w ∷ x ∷ y ∷ z ∷ c ∷ cs ≡ lead false o.len 0 o.proto ++ (c ∷ cs) = cc e in
    let content : (c ∷ cs) ++ b ≡ (body ++ (0x0D ∷ [])) ++ (0x0A ∷ []) =
      cc (e, append_assoc body (0x0D ∷ []) (0x0A ∷ [])) in
    let front =
      split_le (c ∷ cs) b (body ++ (0x0D ∷ [])) (0x0A ∷ []) content
        (omega (arith, length-append body (0x0D ∷ []), length-append body crlf)) in
    ap extract_frame same
    ∙ quiet_waits false o.len 0 o.proto c cs (
        has_crlf-front (c ∷ cs) (drop (length (c ∷ cs)) (body ++ (0x0D ∷ [])))
          (ap has_crlf (sym front.0) ∙ h.quiet))

pub streamed_waits :
    (p : Packet) (a b : Bytes)
    → IsStreamed p
    → (frame_of p).raw ≡ a ++ b
    → length a < length (frame_of p).raw
    → extract_frame a ≡ fault incomplete 0
streamed_waits p a b (plain h) e lt = prefix_waits p a b h e lt
streamed_waits p a b (readable o h same) e lt =
    let raws : (frame_of (packet_of o)).raw ≡ (frame_of p).raw = ap (λ q. (frame_of q).raw) same in
    observation_waits o a b h (raws ∙ e) (omega (arith, ap length raws))
