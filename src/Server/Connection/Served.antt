-- ===== src/Server/Connection/Served.antt =====
-- A connection on which a stream of packets arrives in any pieces.
use mathlib.Core.Path.{subst}
use zx909_gw.Prelude.{
  ℕ, ◌+◌, Bool, true, false, ◌≡◌, refl, ap, ◌∙◌, sym, List, [], ◌∷◌, ◌++◌, some, arith, length,
  append-nil, append_assoc, if◌then◌else◌, ◌==◌,
}
use zx909_gw.Bytes.{Bytes}
use zx909_gw.Platform.{Platform}
use zx909_gw.Protocol.Frame.{Frame, fault, incomplete, extract_frame, is_gps, is_wifi_lbs}
use zx909_gw.Protocol.Login.{parse_login}
use zx909_gw.Protocol.Parsed.{ok, err, Parsed}
use zx909_gw.Protocol.Packet.{Packet, frame_of, stream}
use zx909_gw.Protocol.Packet.Streamed.{AllStreamed, AllStreamed-append, extract_frame-streamed}
use zx909_gw.Server.State.{Server, World}
use zx909_gw.Server.Handle.{Conn, login_parsed, handle_frame, hang_up}
use zx909_gw.Server.Drain.Stream.{handle_all}
use zx909_gw.Server.Drain.Chunks.{stream-IsCutAt}
use zx909_gw.Server.Drain.Pieces.{receive-stream}
use zx909_gw.Server.Connection.{Surroundings, new_conn, receive_all, ended, handle_conn}

abbrev pub joined {ℓ} : {A : Type ℓ} → List (List A) → List A
joined [] = []
joined (xs ∷ xss) = xs ++ joined xss

-- A stream that is complete holds no packet if it waits for more.
stream-waits :
    (ps : List Packet) → AllStreamed ps → extract_frame (stream ps) ≡ fault incomplete 0 → ps ≡ []
stream-waits [] h waits = refl
stream-waits (p ∷ ps) h waits = let taken = extract_frame-streamed p (stream ps) h.0 in absurd (cc)

-- The packets of a stream, dealt to the inputs in order.
pub record IsDealt (ps : List Packet) (inputs : List Bytes) : Type 0 where
  pub rounds : List (List Packet)
  pub each : length rounds ≡ length inputs
  pub whole : joined rounds ≡ ps

module _ (P : Platform) where
  abbrev with_buf : Bytes → Conn × Server P → Conn × Server P
  with_buf b r = (record r.0 { buf = b }, r.1)

  if-with_buf :
      (test : Bool) (b : Bytes) (x y x' y' : Conn × Server P)
      → x' ≡ with_buf b x
      → y' ≡ with_buf b y
      → (if test then x' else y') ≡ with_buf b (if test then x else y)
  if-with_buf true b x y x' y' p q = p
  if-with_buf false b x y x' y' p q = q

  login_parsed-with_buf :
      (w : World P) (r : Parsed Bytes) (c : Conn) (s : Server P) (b : Bytes)
      → login_parsed P w r (record c { buf = b }) s ≡ with_buf b (login_parsed P w r c s)
  unfolding login_parsed
  login_parsed-with_buf w (ok id) c s b = refl
  login_parsed-with_buf w (err e) c s b = refl

  -- What a frame does does not depend on the buffer.
  handle_frame-with_buf :
      (w : World P) (f : Frame) (c : Conn) (s : Server P) (b : Bytes)
      → handle_frame P w f (record c { buf = b }) s ≡ with_buf b (handle_frame P w f c s)
  unfolding handle_frame
  handle_frame-with_buf w f c s b =
      if-with_buf (f.proto == 0x01) b _ _ _ _ (login_parsed-with_buf w (parse_login f.body) c s b) (
        if-with_buf (f.proto == 0x30) b _ _ _ _ refl (
          if-with_buf (f.proto == 0x57) b _ _ _ _ refl (
            if-with_buf (f.proto == 0xB3) b _ _ _ _ refl (
              if-with_buf (f.proto == 0x13) b _ _ _ _ refl (
                if-with_buf (is_gps f.proto) b _ _ _ _ refl
                  (if-with_buf (is_wifi_lbs f.proto) b _ _ _ _ refl refl))))))

  handle_all-with_buf :
      (ws : ℕ → World P) (i : ℕ) (ps : List Packet) (c : Conn) (s : Server P) (b : Bytes)
      → handle_all P ws i ps (record c { buf = b }) s ≡ with_buf b (handle_all P ws i ps c s)
  handle_all-with_buf ws i [] c s b = refl
  handle_all-with_buf ws i (p ∷ ps) c s b =
      let r = handle_frame P (ws i) (frame_of p) c s in
      ap (λ x. handle_all P ws (i + 1) ps x.0 x.1) (handle_frame-with_buf (ws i) (frame_of p) c s b)
      ∙ handle_all-with_buf ws (i + 1) ps r.0 r.1 b

  -- The packets of each round, handled one after the other, after what others do before the round.
  abbrev pub handle_rounds :
      Surroundings P → ℕ → List (List Packet) → Conn → Server P → Conn × Server P
  handle_rounds e i [] c s = (c, e.others i s)
  handle_rounds e i (ps ∷ rounds) c s =
      let r = handle_all P (e.worlds i) 0 ps c (e.others i s) in
      handle_rounds e (i + 1) rounds r.0 r.1

  handle_rounds-with_buf :
      (e : Surroundings P) (i : ℕ) (rounds : List (List Packet)) (c : Conn) (s : Server P)
      (b : Bytes)
      → handle_rounds e i rounds (record c { buf = b }) s
        ≡ with_buf b (handle_rounds e i rounds c s)
  handle_rounds-with_buf e i [] c s b = refl
  handle_rounds-with_buf e i (ps ∷ rounds) c s b =
      let r = handle_all P (e.worlds i) 0 ps c (e.others i s) in
      ap (λ x. handle_rounds e (i + 1) rounds x.0 x.1)
        (handle_all-with_buf (e.worlds i) 0 ps c (e.others i s) b)
      ∙ handle_rounds-with_buf e (i + 1) rounds r.0 r.1 b

  -- The rounds of the loop on a stream of which a part is in the buffer.
  receive_all-IsDealt :
      (e : Surroundings P) (i : ℕ) (inputs : List Bytes) (ps : List Packet) (c : Conn)
      (s : Server P)
      → AllStreamed ps
      → extract_frame c.buf ≡ fault incomplete 0
      → c.buf ++ joined inputs ≡ stream ps
      → (d : IsDealt ps inputs) × (receive_all P e i inputs c s
          ≡ some (with_buf [] (handle_rounds e i d.rounds c s)))
  unfolding receive_all
  receive_all-IsDealt e i [] ps c s h waits same =
      let all : c.buf ≡ stream ps = sym (append-nil c.buf) ∙ same in
      let none_left = stream-waits ps h (ap extract_frame (sym all) ∙ waits) in
      let empty : c.buf ≡ [] = all ∙ ap stream none_left in
      (
        record { rounds = []; each = refl; whole = sym none_left },
        ap (λ b. some (record c { buf = b }, e.others i s)) empty,
      )
  receive_all-IsDealt e i (x ∷ xs) ps c s h waits same =
      let k =
        stream-IsCutAt ps (c.buf ++ x) (joined xs) h (append_assoc c.buf x (joined xs) ∙ same) in
      let split = AllStreamed-append k.done k.left (subst AllStreamed k.packets h) in
      let t = e.others i s in
      let r = handle_all P (e.worlds i) 0 k.done c t in
      let got = receive-stream P (e.worlds i) x k.done k.piece c t k.before split.0 k.waits in
      let (d, later) =
        receive_all-IsDealt e (i + 1) xs k.left (record r.0 { buf = k.piece }) r.1 split.1 k.waits
          k.after in
      (
        record {
          rounds = k.done ∷ d.rounds;
          each = omega (arith, d.each);
          whole = ap (λ qs. k.done ++ qs) d.whole ∙ sym k.packets;
        },
        rw (got, receive_all) later
            ∙ ap (λ y. some (with_buf [] y))
                (handle_rounds-with_buf e (i + 1) d.rounds r.0 r.1 k.piece),
      )

  -- A stream of packets (plain: outside the Wi-Fi / LBS family, with a body that reaches the floor of
  -- its protocol and has no trailer behind it; or readable: of that family, with access points that
  -- are unlike an LBS block, a block of one to six cells, and no trailer inside) arrives on a new
  -- connection in any number of pieces, cut anywhere, until a read fails; others may do anything to
  -- the server while the connection waits. Then the packets are dealt to the pieces in order,
  -- `handleConn` handles each exactly once and in order, in the round of its piece, and then makes
  -- its deferred calls.
  pub handle_conn-IsDealt :
      (e : Surroundings P) (inputs : List Bytes) (id : ℕ) (remote : Bytes) (s : Server P)
      (ps : List Packet)
      → AllStreamed ps
      → joined inputs ≡ stream ps
      → (d : IsDealt ps inputs) × (let r = handle_rounds e 0 d.rounds (new_conn id remote) s in
          handle_conn P e inputs id remote s ≡ some (hang_up P r.0 r.1))
  unfolding handle_conn ended hang_up
  handle_conn-IsDealt e inputs id remote s ps h same =
      let (d, rounds) =
        receive_all-IsDealt e 0 inputs ps (new_conn id remote) s h (unfold extract_frame in refl)
          same in
      (d, ap (ended P) rounds)
