-- ===== src/Server/Directory/Tests.antt =====
-- Concrete runs of the directory.
use zx909_gw.Prelude.{◌≡◌, ◌≢◌, [], ◌∷◌, some, arith}
use zx909_gw.Bytes.{Bytes}
use zx909_gw.Samples.{sample_platform, sample_conn, sample_server, sample_imei, sample_world}
use zx909_gw.Protocol.Frame.{Frame}
use zx909_gw.Server.State.{Server, find_session, deref}
use zx909_gw.Server.Handle.{hang_up, handle_frame}
use zx909_gw.Server.Keeps.{IsWellFormed}
use zx909_gw.Server.WellFormed.Reach.{here, next, frames, hangs_up}
use zx909_gw.Server.Tests.{sample_server-IsWellFormed}
use zx909_gw.Server.Directory.{directory, ends, act, directory-act}
use zx909_gw.Server.Directory.Gone.{gone_for_good}

directory-act_example :
    directory sample_platform (hang_up sample_platform sample_conn sample_server)
    ≡ act (ends sample_imei (some 0)) (directory sample_platform sample_server)
directory-act_example =
    directory-act sample_platform (hangs_up sample_conn) sample_server-IsWellFormed

-- The server after the device has hung up.
abbrev left_server : Server sample_platform
left_server = record sample_server { sessions = [] }

left_server-IsWellFormed : IsWellFormed sample_platform left_server
unfolding find_session deref
left_server-IsWellFormed = record {
  keys = tt;
  owned = λ imei p e. absurd (cc);
  unused = λ p h. ground arith;
}

left_server-gone : (k : Bytes) → find_session k left_server.sessions ≢ some 0
unfolding find_session
left_server-gone k e = cc

-- The device sends its login again.
abbrev login_frame : Frame
login_frame = record {
  proto = 0x01;
  body = 0x01 ∷ 0x23 ∷ 0x45 ∷ 0x67 ∷ 0x89 ∷ 0x01 ∷ 0x23 ∷ 0x45 ∷ [];
  serial = 0;
  raw = [];
}

gone_for_good_example :
    find_session sample_imei
      (handle_frame sample_platform sample_world login_frame sample_conn left_server).1.sessions
    ≢ some 0
gone_for_good_example =
    gone_for_good sample_platform 0 (next here (frames sample_world login_frame sample_conn))
      left_server-IsWellFormed (omega arith) left_server-gone sample_imei
