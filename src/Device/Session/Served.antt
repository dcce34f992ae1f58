-- ===== src/Device/Session/Served.antt =====
-- A whole session of the simulator with the server.
use zx909_gw.Prelude.{
  ℕ, suc, ◌≡◌, refl, ap, ◌∙◌, sym, false, List, [], ◌∷◌, ◌++◌, Option, none, some, arith, length,
  append-nil, append_assoc,
}
use zx909_gw.Bytes.{Bytes}
use zx909_gw.Platform.{Platform, Civil}
use zx909_gw.Protocol.Frame.{extract_frame}
use zx909_gw.Protocol.Login.Digits.{AreDigits}
use zx909_gw.Protocol.Packet.{Packet, frame_of, AllPlain, stream}
use zx909_gw.Protocol.Packet.Streamed.{AllPlain-AllStreamed}
use zx909_gw.Protocol.Ack.{build_login_ack}
use zx909_gw.Server.State.{Server, World}
use zx909_gw.Server.Uplink.{is_empty}
use zx909_gw.Server.Handle.{Conn, handle_frame, login_parsed}
use zx909_gw.Server.Drain.{Drained, receive, drain_frames}
use zx909_gw.Server.Drain.Stream.{handle_all, drain_frames-stream}
use zx909_gw.Device.Session.{
  packets, packets-stream, packets-AllPlain, length-stream, written, answers, written_one,
  handle_frame-written, handle_all-answers,
}
use zx909_gw.Device.{Sending, asks_time, reports_fix, transcript}
use zx909_gw.Device.RoundTrip.{
  login_packet, build_login_lem, login-IsPlain, parse_login-pack_digits,
}

module _ (P : Platform) where
  login-conn :
      (w : World P) (imei : Bytes) (c : Conn) (s : Server P)
      → length imei ≡ 15
      → AreDigits imei
      → (n : ℕ) × ((handle_frame P w (frame_of (login_packet imei)) c s).0
          ≡ record c { imei = imei; sess = some n })
  unfolding handle_frame login_parsed
  login-conn w imei c s size digits =
      rw (parse_login-pack_digits imei (0x39 ∷ []) size digits, login_parsed) (_, refl)

  login-written :
      (w : World P) (imei : Bytes) (c : Conn) (s : Server P)
      → written P c.id (handle_frame P w (frame_of (login_packet imei)) c s).1.log
        ≡ written P c.id s.log ++ (build_login_ack ∷ [])
  login-written w imei c s =
      handle_frame-written P w c s (frame_of (login_packet imei)) c.id
      ∙ ap (λ bs. written P c.id s.log ++ bs) (written_one P c.id build_login_ack)

  -- A login of the IMEI and then packets: the connection has the IMEI, and each is answered in turn.
  pub record IsServed (ws : ℕ → World P) (imei : Bytes) (xs : List Sending) (c : Conn)
      (s : Server P) (c' : Conn) (s' : Server P) : Type 0 where
    pub named : c'.imei ≡ imei
    pub replies :
        written P c.id s'.log ≡ written P c.id s.log ++ (build_login_ack ∷ answers P ws 1 xs)

  session-IsServed :
      (ws : ℕ → World P) (imei : Bytes) (xs : List Sending) (c : Conn) (s : Server P)
      → length imei ≡ 15
      → AreDigits imei
      → (let r = handle_all P ws 0 (login_packet imei ∷ packets xs) c s in
          IsServed ws imei xs c s r.0 r.1)
  session-IsServed ws imei xs c s size digits =
      let t = (handle_frame P (ws 0) (frame_of (login_packet imei)) c s).1 in
      let (n, same) = login-conn (ws 0) imei c s size digits in
      let d = record c { imei = imei; sess = some n } in
      let named : is_empty imei ≡ false = ground arith in
      let later = handle_all-answers P ws 1 xs d t named in
      record {
        named =
            ap (λ e. (handle_all P ws 1 (packets xs) e t).0.imei) same ∙ ap (λ e. e.imei) later.0;
        replies =
            ap (λ e. written P c.id (handle_all P ws 1 (packets xs) e t).1.log) same
            ∙ later.1
            ∙ ap (λ b. b ++ answers P ws 1 xs) (login-written (ws 0) imei c s)
            ∙ append_assoc (written P c.id s.log) (build_login_ack ∷ []) (answers P ws 1 xs);
      }

  -- What `receive` makes of the loop's result.
  abbrev kept : Option (Drained P) → Option (Conn × Server P)
  kept r = elim r [ none ↦ none | some d ↦ some (record d.conn { buf = d.rest }, d.server) ]

  -- Packets that arrive on an empty buffer are handled one after the other, and none is left.
  receive-stream :
      (ws : ℕ → World P) (ps : List Packet) (c : Conn) (s : Server P)
      → AllPlain ps
      → c.buf ≡ []
      → (let r = handle_all P ws 0 ps c s in
          receive P ws (stream ps) c s ≡ some (record r.0 { buf = [] }, r.1))
  unfolding receive
  receive-stream ws ps c s plain empty =
      let fuel = suc (length (stream ps)) in
      let longer = length-stream ps in
      let drained =
        ap (λ b. drain_frames P fuel ws 0 b c s) (sym (append-nil (stream ps)))
        ∙ drain_frames-stream P fuel ws 0 ps [] c s (AllPlain-AllStreamed ps plain)
            (unfold extract_frame in refl) (omega arith) in
      ap (λ b. kept (drain_frames P (suc (length (b ++ stream ps))) ws 0 (b ++ stream ps) c s))
        empty
      ∙ ap kept drained

  -- Let a simulator with an IMEI of fifteen decimal digits send its login, the request for the time, a
  -- position and then any sequence of positions, requests for the time and status reports, and let
  -- these bytes arrive on a connection whose buffer is empty, in whatever state the server is. The
  -- round of the read loop ends with an empty buffer and with the connection under this IMEI, and what
  -- it writes on the connection is the login reply and then for each packet exactly its reply, in
  -- order: the time, the date of the position, or the status packet itself.
  pub transcript-IsServed :
      (ws : ℕ → World P) (imei : Bytes) (now : Civil) (lat_raw lon_raw : ℕ) (ticks : List Sending)
      (c : Conn) (s : Server P)
      → length imei ≡ 15
      → AreDigits imei
      → c.buf ≡ []
      → (bytes : Bytes) × (c' : Conn) × (s' : Server P) × (transcript imei now lat_raw lon_raw ticks
          ≡ some bytes)
        × (receive P ws bytes c s ≡ some (c', s'))
        × (c'.buf ≡ [])
        × IsServed ws imei (asks_time ∷ reports_fix now lat_raw lon_raw ∷ ticks) c s c' s'
  unfolding receive transcript
  transcript-IsServed ws imei now lat_raw lon_raw ticks c s size digits empty =
      let xs : List Sending = asks_time ∷ reports_fix now lat_raw lon_raw ∷ ticks in
      let ps : List Packet = login_packet imei ∷ packets xs in
      let r = handle_all P ws 0 ps c s in
      let served = session-IsServed ws imei xs c s size digits in
      (
        stream ps,
        record r.0 { buf = [] },
        r.1,
        rw (build_login_lem imei size, transcript)
            (ap (λ y. some ((frame_of (login_packet imei)).raw ++ y)) (sym (packets-stream xs))),
        receive-stream ws ps c s (login-IsPlain imei size, packets-AllPlain xs) empty,
        refl,
        record { named = served.named; replies = served.replies },
      )
