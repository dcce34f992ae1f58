-- ===== src/Samples.antt =====
-- Concrete data for the tests: a platform, packets, a connection and a server.
use zx909_gw.Prelude.{ℕ, ◌*◌, true, not, [], ◌∷◌, ◌++◌, none, some, ◌==◌}
use zx909_gw.Prelude.Int.{pos_part}
use zx909_gw.Bytes.{Bytes, crlf}
use zx909_gw.Platform.{Civil, Platform}
use zx909_gw.Protocol.Frame.{Frame}
use zx909_gw.Server.State.{Server, World, Session}
use zx909_gw.Server.Handle.{Conn}

abbrev pub sample_time : Civil
sample_time = record { year = 2024; month = 5; day = 6; hour = 7; minute = 8; second = 9 }

-- Times are calendar fields, and floating-point numbers are fractions.
abbrev pub sample_platform : Platform
sample_platform = record {
  Time = Civil;
  Float = ℕ × ℕ;
  date = λ y mo d h mi s. record {
    year = pos_part y;
    month = pos_part mo;
    day = pos_part d;
    hour = pos_part h;
    minute = pos_part mi;
    second = pos_part s;
  };
  utc = λ t. t;
  is_zero = λ t. t.year == 1;
  float = λ n. (n, 1);
  quotient = λ x y. (x.0 * y.1, x.1 * y.0);
  ne_zero = λ x. not (x.0 == 0);
}

-- 0D 0A inside the datetime of a GPS packet.
abbrev pub gps_body : Bytes
gps_body =
    0x0d ∷ 0x0a ∷ 0x01 ∷ 0x0c ∷ 0x1e ∷ 0x00 ∷ 0x9c ∷ 0x02 ∷ 0x6b ∷ 0x3f ∷ 0x3e ∷ 0x0c ∷ 0x22 ∷ 0xad
    ∷ 0x65 ∷ 0x1f ∷ 0x34 ∷ 0x60 ∷ []

abbrev pub gps_raw : Bytes
gps_raw = 0x78 ∷ 0x78 ∷ 0x12 ∷ 0x10 ∷ (gps_body ++ crlf)

abbrev pub gps_frame : Frame
gps_frame = record { proto = 0x10; body = gps_body; serial = 0; raw = gps_raw }

-- The IMEI 123456789012345.
abbrev pub sample_imei : Bytes
sample_imei =
    b'1' ∷ b'2' ∷ b'3' ∷ b'4' ∷ b'5' ∷ b'6' ∷ b'7' ∷ b'8' ∷ b'9' ∷ b'0' ∷ b'1' ∷ b'2' ∷ b'3' ∷ b'4'
    ∷ b'5' ∷ []

-- A connection on which the sample IMEI has logged in as session 0.
abbrev pub sample_conn : Conn
sample_conn = record { id = 7; remote = []; imei = sample_imei; sess = some 0; buf = [] }

abbrev pub sample_session : Session sample_platform
sample_session = record {
  imei = sample_imei;
  conn = 7;
  remote = [];
  connected = sample_time;
  last_seen = sample_time;
  tb_connected = true;
}

-- The server in which that session is current.
abbrev pub sample_server : Server sample_platform
sample_server = record {
  reg_enabled = true;
  geo_enabled = true;
  sessions = (sample_imei, 0) ∷ [];
  heap = (0, sample_session) ∷ [];
  next = 1;
  log = [];
  tasks = [];
}

-- Everything succeeds, and every IMEI is registered.
abbrev pub sample_world : World sample_platform
sample_world = record {
  now = sample_time;
  later = sample_time;
  is_registered = λ imei. true;
  connect_ok = λ imei. true;
  write_ok = λ conn. true;
  locate = λ aps cells. none;
}
