-- ===== src/Device/Session.antt =====
-- The packets that the simulator sends after its login, and the replies that each is due.
pub mod Served
use zx909_gw.Prelude.{
  ℕ, suc, ◌+◌, ◌%◌, ◌≤◌, ◌<◌, ◌≡◌, refl, ap, ◌∙◌, sym, Bool, true, false, List, [], ◌∷◌, ◌++◌,
  Option, none, some, arith, length, append-nil, append_assoc, length-append, if◌then◌else◌, ◌==◌,
  map,
}
use zx909_gw.Bytes.{Bytes, crlf}
use zx909_gw.Platform.{Platform, Civil}
use zx909_gw.Protocol.Frame.{
  Frame, extract_frame, fault, incomplete, is_gps, is_wifi_lbs, content_bounds,
}
use zx909_gw.Protocol.Parsed.{ok}
use zx909_gw.Protocol.Login.{parse_login}
use zx909_gw.Protocol.Login.Digits.{AreDigits}
use zx909_gw.Protocol.Packet.{Packet, frame_of, IsPlain, IsPlain-of_length, AllPlain, stream}
use zx909_gw.Protocol.Gps.Fix.{gps_packet}
use zx909_gw.Protocol.Ack.{
  build_login_ack, build_datetime_ack, datetime_from_body, build_status_echo,
}
use zx909_gw.Protocol.Commands.{build_time_sync_reply}
use zx909_gw.Server.State.{
  Server, World, Output, write, close, connect_device, disconnect_device, publish_telemetry,
}
use zx909_gw.Server.Uplink.{is_empty}
use zx909_gw.Server.Handle.{Conn, handle_frame, login_parsed}
use zx909_gw.Server.Effects.{All, Permitted}
use zx909_gw.Server.Effects.Reply.{reply, handle_frame-Logs}
use zx909_gw.Server.Drain.{Drained, receive, drain_frames}
use zx909_gw.Server.Drain.Stream.{handle_all, drain_frames-stream}
use zx909_gw.Device.{
  Sending, asks_time, reports_fix, reports_status, build_login, build_time_sync_req, build_gps,
  build_status, sent_bytes, sent_all, transcript,
}
use zx909_gw.Device.RoundTrip.{
  login_packet, build_login_lem, login-IsPlain, parse_login-pack_digits,
}

abbrev pub packet_of : Sending → Packet
packet_of asks_time = record { ext = false; len_hi = 0x01; len_lo = 0; proto = 0x30; body = [] }
packet_of (reports_fix now lat_raw lon_raw) = gps_packet now lat_raw lon_raw 5 90
packet_of reports_status = record {
  ext = false;
  len_hi = 0x06;
  len_lo = 0;
  proto = 0x13;
  body = 0x64 ∷ 0x39 ∷ 0x03 ∷ 0x02 ∷ [];
}

packet_of-raw : (x : Sending) → (frame_of (packet_of x)).raw ≡ sent_bytes x
unfolding sent_bytes build_time_sync_req build_gps build_status
packet_of-raw asks_time = refl
packet_of-raw (reports_fix now lat_raw lon_raw) = refl
packet_of-raw reports_status = refl

abbrev pub packets : List Sending → List Packet
packets [] = []
packets (x ∷ xs) = packet_of x ∷ packets xs

pub packets-stream : (xs : List Sending) → stream (packets xs) ≡ sent_all xs
unfolding sent_all
packets-stream [] = refl
packets-stream (x ∷ xs) = λ i. packet_of-raw x i ++ packets-stream xs i

packet_of-IsPlain : (x : Sending) → IsPlain (packet_of x)
unfolding content_bounds
packet_of-IsPlain asks_time = IsPlain-of_length (packet_of asks_time) refl refl
packet_of-IsPlain (reports_fix now lat_raw lon_raw) =
    IsPlain-of_length (packet_of (reports_fix now lat_raw lon_raw)) refl refl
packet_of-IsPlain reports_status = IsPlain-of_length (packet_of reports_status) refl refl

pub packets-AllPlain : (xs : List Sending) → AllPlain (packets xs)
packets-AllPlain [] = tt
packets-AllPlain (x ∷ xs) = (packet_of-IsPlain x, packets-AllPlain xs)

pub length-stream : (ps : List Packet) → length ps ≤ length (stream ps)
length-stream [] = omega arith
length-stream (p ∷ ps) =
    let raw = (frame_of p).raw in
    let longer = length-stream ps in omega (arith, length-append raw (stream ps), raw_nonempty p)
  where
    raw_nonempty : (q : Packet) → 1 ≤ length (frame_of q).raw
    raw_nonempty q = ground arith

module _ (P : Platform) where
  -- The bytes written on a connection, in order.
  abbrev pub written : ℕ → List (Output P) → List Bytes
  written id [] = []
  written id (write conn bytes ∷ os) =
      let rest = written id os in if conn == id then bytes ∷ rest else rest
  written id (_ ∷ os) = written id os

  -- The reply that the protocol prescribes: the time, the date of the fix, the status itself.
  abbrev pub answer_to : World P → Sending → Bytes
  answer_to w asks_time = build_time_sync_reply P w.later
  answer_to w (reports_fix now lat_raw lon_raw) =
      0x78
      ∷ 0x78
      ∷ 0x00
      ∷ 0x10
      ∷ (now.year + 48) % 256
      ∷ now.month % 256
      ∷ now.day % 256
      ∷ now.hour % 256
      ∷ now.minute % 256
      ∷ now.second % 256
      ∷ crlf
  answer_to w reports_status = 0x78 ∷ 0x78 ∷ 0x06 ∷ 0x13 ∷ 0x64 ∷ 0x39 ∷ 0x03 ∷ 0x02 ∷ crlf

  abbrev pub answers : (ℕ → World P) → ℕ → List Sending → List Bytes
  answers ws i [] = []
  answers ws i (x ∷ xs) = answer_to (ws i) x ∷ answers ws (i + 1) xs

  written-append :
      (id : ℕ) (os rs : List (Output P)) → written id (os ++ rs) ≡ written id os ++ written id rs
  written-append id [] rs = refl
  written-append id (write conn bytes ∷ os) rs = ground (arith, written-append id os rs)
  written-append id (close conn ∷ os) rs = written-append id os rs
  written-append id (connect_device k ∷ os) rs = written-append id os rs
  written-append id (disconnect_device k ∷ os) rs = written-append id os rs
  written-append id (publish_telemetry k ts values ∷ os) rs = written-append id os rs

  pub written_one : (id : ℕ) (bytes : Bytes) → written id (write id bytes ∷ []) ≡ bytes ∷ []
  written_one id bytes = ground arith

  written-Permitted :
      (w : World P) (reg : Bool) (imei : Bytes) (conn id : ℕ) (os : List (Output P))
      → All (Permitted P w reg imei conn) os
      → written id os ≡ []
  written-Permitted w reg imei conn id [] h = refl
  written-Permitted w reg imei conn id (write _ _ ∷ os) h = absurd h.0
  written-Permitted w reg imei conn id (close _ ∷ os) h =
      written-Permitted w reg imei conn id os h.1
  written-Permitted w reg imei conn id (connect_device _ ∷ os) h =
      written-Permitted w reg imei conn id os h.1
  written-Permitted w reg imei conn id (disconnect_device _ ∷ os) h = absurd h.0
  written-Permitted w reg imei conn id (publish_telemetry _ _ _ ∷ os) h =
      written-Permitted w reg imei conn id os h.1

  -- A frame has its reply written, and nothing else.
  pub handle_frame-written :
      (w : World P) (c : Conn) (s : Server P) (f : Frame) (id : ℕ)
      → written id (handle_frame P w f c s).1.log ≡ written id s.log ++ written id (reply P w c s f)
  handle_frame-written w c s f id =
      let l = handle_frame-Logs P w c s f in
      ap (written id) l.logs
      ∙ written-append id s.log (l.before ++ reply P w c s f)
      ∙ ap (λ x. written id s.log ++ x)
          (written-append id l.before (reply P w c s f)
            ∙ ap (λ x. x ++ written id (reply P w c s f))
                (written-Permitted w s.reg_enabled c.imei c.id id l.before l.kind))

  packet_of-conn :
      (w : World P) (c : Conn) (s : Server P) (x : Sending)
      → (handle_frame P w (frame_of (packet_of x)) c s).0 ≡ c
  unfolding handle_frame is_gps
  packet_of-conn w c s asks_time = refl
  packet_of-conn w c s (reports_fix now lat_raw lon_raw) = refl
  packet_of-conn w c s reports_status = refl

  packet_of-answered :
      (w : World P) (c : Conn) (s : Server P) (x : Sending)
      → is_empty c.imei ≡ false
      → reply P w c s (frame_of (packet_of x)) ≡ write c.id (answer_to w x) ∷ []
  unfolding is_gps build_datetime_ack datetime_from_body build_status_echo
  packet_of-answered w c s asks_time named = refl
  packet_of-answered w c s (reports_fix now lat_raw lon_raw) named = rw named refl
  packet_of-answered w c s reports_status named = refl

  -- The packets after the login leave the connection's variables, and are answered in turn.
  pub handle_all-answers :
      (ws : ℕ → World P) (i : ℕ) (xs : List Sending) (c : Conn) (s : Server P)
      → is_empty c.imei ≡ false
      → ((handle_all P ws i (packets xs) c s).0 ≡ c)
        × (written c.id (handle_all P ws i (packets xs) c s).1.log
            ≡ written c.id s.log ++ answers ws i xs)
  handle_all-answers ws i [] c s named = (refl, sym (append-nil (written c.id s.log)))
  handle_all-answers ws i (x ∷ xs) c s named =
      let r = handle_frame P (ws i) (frame_of (packet_of x)) c s in
      let same : r.0 ≡ c = packet_of-conn (ws i) c s x in
      let later = handle_all-answers ws (i + 1) xs c r.1 named in
      (
        ap (λ d. (handle_all P ws (i + 1) (packets xs) d r.1).0) same ∙ later.0,
        ap (λ d. written c.id (handle_all P ws (i + 1) (packets xs) d r.1).1.log) same
            ∙ later.1
            ∙ ap (λ b. b ++ answers ws (i + 1) xs)
                (handle_frame-written (ws i) c s (frame_of (packet_of x)) c.id
                  ∙ ap (λ os. written c.id s.log ++ written c.id os)
                      (packet_of-answered (ws i) c s x named)
                  ∙ ap (λ bs. written c.id s.log ++ bs) (written_one c.id (answer_to (ws i) x)))
            ∙ append_assoc (written c.id s.log) (answer_to (ws i) x ∷ []) (answers ws (i + 1) xs),
      )
