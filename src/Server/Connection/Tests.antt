-- ===== src/Server/Connection/Tests.antt =====
-- Concrete connections.
use zx909_gw.Prelude.{◌≡◌, refl, List, [], ◌∷◌, some, arith, take, drop}
use zx909_gw.Bytes.{Bytes}
use zx909_gw.Protocol.Frame.{is_wifi_lbs, content_bounds}
use zx909_gw.Protocol.Gps.Fix.{gps_packet}
use zx909_gw.Protocol.Packet.{Packet, IsPlain-of_length, stream}
use zx909_gw.Protocol.Packet.Observation.{Observation, packet_of, IsReadable}
use zx909_gw.Protocol.Packet.Streamed.{AllStreamed, plain, readable}
use zx909_gw.Samples.{sample_platform, sample_world, sample_time, sample_server}
use zx909_gw.Server.Handle.{Conn, hang_up}
use zx909_gw.Server.WellFormed.Reach.{Reach, here}
use zx909_gw.Server.State.{Server}
use zx909_gw.Server.Connection.{Surroundings, new_conn, handle_conn}
use zx909_gw.Server.Connection.Served.{IsDealt, handle_rounds, handle_conn-IsDealt}
use zx909_gw.Server.Connection.Steps.{handle_conn-Reach}

-- Others do nothing.
abbrev quiet : Surroundings sample_platform
quiet = record { worlds = λ i j. sample_world; others = λ i s. s }

-- The access point aa:bb:cc:dd:ee:ff and one cell.
abbrev sighting : Observation
sighting = record {
  len = 0;
  proto = 0x1A;
  year = 0x24;
  month = 0x05;
  day = 0x06;
  hour = 0x07;
  minute = 0x08;
  second = 0x09;
  points =
      record { m0 = 0xAA; m1 = 0xBB; m2 = 0xCC; m3 = 0xDD; m4 = 0xEE; m5 = 0xFF; rssi = 0xC8 } ∷ [];
  mcc = 432;
  mnc = 11;
  towers = record { mcc = 432; mnc = 11; lac = 0x1234; cell_id = 0x5678; signal = 0x40 } ∷ [];
}

sighting-IsReadable : IsReadable sighting
unfolding is_wifi_lbs
sighting-IsReadable = record {
  wifi = refl;
  some_towers = omega arith;
  few_towers = omega arith;
  real_mcc = omega arith;
  short_mcc = omega arith;
  unlike = (refl, (refl, (refl, (refl, (refl, (refl, (refl, tt)))))));
  quiet = refl;
}

abbrev fix : Packet
fix = gps_packet sample_time 13 10 1 2

abbrev sent : List Packet
sent = fix ∷ packet_of sighting ∷ fix ∷ []

sent-AllStreamed : AllStreamed sent
unfolding is_wifi_lbs content_bounds
sent-AllStreamed = (
  plain (IsPlain-of_length fix refl refl),
  (readable sighting sighting-IsReadable refl, (plain (IsPlain-of_length fix refl refl), tt)),
)

-- Three pieces: the cuts are inside the first and the second packet.
abbrev pieces : List Bytes
pieces = take 10 (stream sent) ∷ take 30 (drop 10 (stream sent)) ∷ drop 40 (stream sent) ∷ []

handle_conn-IsDealt_example :
    (d : IsDealt sent pieces) × (let r =
        handle_rounds sample_platform quiet 0 d.rounds (new_conn 7 []) sample_server in
      handle_conn sample_platform quiet pieces 7 [] sample_server
      ≡ some (hang_up sample_platform r.0 r.1))
handle_conn-IsDealt_example =
    handle_conn-IsDealt sample_platform quiet pieces 7 [] sample_server sent sent-AllStreamed refl

handle_conn-Reach_example :
    (c : Conn) × (t : Server sample_platform) × (handle_conn sample_platform quiet pieces 7 []
        sample_server
      ≡ some (hang_up sample_platform c t))
    × Reach sample_platform sample_server t
handle_conn-Reach_example =
    handle_conn-Reach sample_platform quiet (λ i s. here) pieces 7 [] sample_server
