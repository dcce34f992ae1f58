-- ===== src/Server/Calls/Tests.antt =====
-- A login, its goroutine, and a publication on the connection's goroutine, interleaved.
use mathlib.Core.List.{reverse}
use zx909_gw.Prelude.{update, ℕ, ◌≡◌, refl, true, [], ◌∷◌, ◌++◌, none, some}
use zx909_gw.Samples.{sample_platform, sample_world, sample_imei, sample_time}
use zx909_gw.Protocol.Frame.{Frame}
use zx909_gw.Protocol.Login.{parse_login}
use zx909_gw.Server.State.{Server, maybe_connect_tb, battery, find_session, register_session}
use zx909_gw.Server.Handle.{Conn, start, handle_frame}
use zx909_gw.Server.WellFormed.Reach.{new_server}
use zx909_gw.Server.Introduced.{InOrder}
use zx909_gw.Server.Calls.{publishes, connects, advance}
use zx909_gw.Server.Calls.System
use zx909_gw.Server.Calls.System.{
  System, log_in, elsewhere, registers, calls, runs, advances, steps, new_system,
}
use zx909_gw.Server.Calls.Ordered.{interleaved-InOrder}
use zx909_gw.Server.State.{World, same_string}
use zx909_gw.Server.Sessions.{same_string_iff}
use zx909_gw.Server.Effects.{All}
use zx909_gw.Server.Trace.{Honest, IsClear}
use zx909_gw.Server.Calls.Vouched.{interleaved-IsClear}
use zx909_gw.Prelude.Int.{pos}

abbrev logged_in : System sample_platform
logged_in = record (new_system sample_platform true true) {
  server =
      log_in sample_platform sample_time sample_time sample_imei 7 []
        (new_server sample_platform true true);
}

started : logged_in.server.tasks ≡ [] ++ (maybe_connect_tb (some 0) sample_imei ∷ [])
unfolding log_in register_session find_session start
started = refl

-- Goroutine 0 is that of the login, goroutine 1 that of the connection.
abbrev both_run : System sample_platform
both_run = record logged_in {
  pc =
      update (update logged_in.pc 0 (connects (some 0) sample_imei)) 1
        (publishes sample_imei sample_time (battery (pos 80)));
}

abbrev goes_in : World sample_platform → ℕ → System sample_platform → System sample_platform
goes_in w i y = record {
  server = (advance sample_platform w (y.pc i) y.server).1;
  pc = update y.pc i (advance sample_platform w (y.pc i) y.server).0;
}

abbrev goes : ℕ → System sample_platform → System sample_platform
goes = goes_in sample_world

interleaved-InOrder_example :
    InOrder sample_platform
      (reverse (goes 1 (goes 1 (goes 0 (goes 1 (goes 0 (goes 1 both_run)))))).server.log)
interleaved-InOrder_example = interleaved-InOrder sample_platform true true (
    steps
      (steps
        (steps
          (steps
            (steps
              (steps
                (steps
                  (steps
                    (steps System.stays
                      (elsewhere (registers sample_time sample_time sample_imei 7 [])))
                    (runs 0 (some 0) sample_imei [] [] refl started))
                  (calls 1 sample_imei sample_time (battery (pos 80)) refl))
                (advances sample_world 1))
              (advances sample_world 0))
            (advances sample_world 1))
          (advances sample_world 0))
        (advances sample_world 1))
      (advances sample_world 1))

abbrev login_frame : Frame
login_frame = record {
  proto = 0x01;
  body = 0x01 ∷ 0x23 ∷ 0x45 ∷ 0x67 ∷ 0x89 ∷ 0x01 ∷ 0x23 ∷ 0x45 ∷ [];
  serial = 0;
  raw = [];
}

abbrev accepted : Conn
accepted = record { id = 7; remote = []; imei = []; sess = none; buf = [] }

abbrev after_login : Server sample_platform
after_login =
    (handle_frame sample_platform sample_world login_frame accepted
      (new_server sample_platform true true)).1

task_started : after_login.tasks ≡ [] ++ (maybe_connect_tb (some 0) sample_imei ∷ [])
unfolding handle_frame parse_login register_session find_session
task_started = refl

-- The registry says yes to the sample IMEI only.
abbrev strict_world : World sample_platform
strict_world = record sample_world { is_registered = λ imei. same_string imei sample_imei }

strict : Honest sample_platform (λ imei. imei ≡ sample_imei) strict_world
strict imei e = (same_string_iff imei sample_imei).0 e

abbrev publishing : System sample_platform
publishing = record logged_in {
  pc = update logged_in.pc 1 (publishes sample_imei sample_time (battery (pos 80)));
}

-- The device of the login is looked up, its connection is asked for, and its telemetry is sent.
interleaved-IsClear_example :
    All
      (IsClear sample_platform (λ imei. imei ≡ sample_imei))
      (goes_in strict_world 1 (
        goes_in strict_world 1 (
          goes_in strict_world 1 (
            goes_in strict_world 1
              (goes_in strict_world 1 (goes_in strict_world 1 publishing)))))).server.log
interleaved-IsClear_example =
    interleaved-IsClear sample_platform (λ imei. imei ≡ sample_imei) true
      (steps
        (steps
          (steps
            (steps
              (steps
                (steps
                  (steps
                    (steps System.stays
                      (elsewhere (registers sample_time sample_time sample_imei 7 [])))
                    (calls 1 sample_imei sample_time (battery (pos 80)) refl))
                  (advances strict_world 1))
                (advances strict_world 1))
              (advances strict_world 1))
            (advances strict_world 1))
          (advances strict_world 1))
        (advances strict_world 1))
      ((((((tt, strict), strict), strict), strict), strict), strict)
