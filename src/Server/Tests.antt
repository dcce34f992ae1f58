-- ===== src/Server/Tests.antt =====
-- Concrete runs of the server.
use zx909_gw.Prelude.{◌≡◌, ◌++◌, none, refl, true, false, [], ◌∷◌, some, arith}
use zx909_gw.Samples.{
  sample_platform, sample_world, sample_imei, sample_conn, sample_session, sample_server, gps_frame,
}
use zx909_gw.Protocol.Parsed.{ok}
use zx909_gw.Server.State.{
  Server, close, disconnect_device, connect_device, maybe_connect_tb, find_session, deref,
  register_session, remove_session, is_tb_connected, put_session,
}
use zx909_gw.Server.Uplink.{ensure_tb_connected, uplink_allowed, run_task}
use zx909_gw.Server.Handle.{handle_frame, login_parsed, hang_up}
use zx909_gw.Server.Drain.Total.{Finishes, drain_frames-Finishes}
use zx909_gw.Server.Effects.{Logs, Permitted}
use zx909_gw.Server.Effects.Reply.{reply, handle_frame-Logs}
use zx909_gw.Server.Sessions.{same_string_iff}
use zx909_gw.Server.Keeps.{IsWellFormed}
use zx909_gw.Server.WellFormed.Reach.{here, next, frames, hangs_up, new_server, Reach-IsWellFormed}
use zx909_gw.Server.Reconnect.Late.{hang_up_before_connect}
use zx909_gw.Server.Reconnect.{hang_up_superseded, relogin_leaks}

drain_frames-Finishes_example :
    Finishes sample_platform 4
      (λ i. sample_world)
      0
      (0x0D ∷ 0x0A ∷ 0x78 ∷ [])
      sample_conn
      sample_server
drain_frames-Finishes_example =
    drain_frames-Finishes sample_platform 4 (λ i. sample_world) 0 (0x0D ∷ 0x0A ∷ 0x78 ∷ [])
      sample_conn sample_server (omega arith)

handle_frame-Logs_example :
    Logs sample_platform
      (Permitted sample_platform sample_world true sample_imei 7)
      (reply sample_platform sample_world sample_conn sample_server gps_frame)
      sample_server
      (handle_frame sample_platform sample_world gps_frame sample_conn sample_server).1
handle_frame-Logs_example =
    handle_frame-Logs sample_platform sample_world sample_conn sample_server gps_frame

-- A frame is handled on a connection, which then ends.
Reach-IsWellFormed_example : IsWellFormed sample_platform (
    hang_up sample_platform sample_conn
      (handle_frame sample_platform sample_world gps_frame sample_conn
        (new_server sample_platform true false)).1)
Reach-IsWellFormed_example =
    Reach-IsWellFormed sample_platform true false
      (next (next here (frames sample_world gps_frame sample_conn)) (hangs_up sample_conn))

pub sample_server-IsWellFormed : IsWellFormed sample_platform sample_server
unfolding find_session deref
sample_server-IsWellFormed = record {
  keys = (refl, tt);
  owned = λ imei p e. ground (arith, same_string_iff sample_imei imei);
  unused = λ p h. ground arith;
}

-- Session 0 of the sample IMEI is superseded by session 1, which is connected too.
abbrev newer_server : Server sample_platform
newer_server = record sample_server {
  sessions = (sample_imei, 1) ∷ [];
  heap = (1, record sample_session { conn = 8 }) ∷ (0, sample_session) ∷ [];
  next = 2;
}

found_newer : find_session sample_imei newer_server.sessions ≡ some 1
unfolding find_session
found_newer = refl

allowed_newer : uplink_allowed sample_platform sample_world sample_imei newer_server ≡ true
unfolding uplink_allowed
allowed_newer = refl

deref_old : deref sample_platform 0 newer_server.heap ≡ some sample_session
unfolding deref
deref_old = refl

deref_newer : deref sample_platform 1 newer_server.heap ≡ some (record sample_session { conn = 8 })
unfolding deref
deref_newer = refl

hang_up_superseded_example :
    (let t = hang_up sample_platform sample_conn newer_server in
      (t.log ≡ disconnect_device sample_imei ∷ close 7 ∷ [])
      × (find_session sample_imei t.sessions ≡ some 1)
      × (ensure_tb_connected sample_platform sample_world sample_imei t ≡ (true, t)))
hang_up_superseded_example =
    hang_up_superseded sample_platform sample_world sample_conn 0 1 sample_session
      (record sample_session { conn = 8 }) newer_server refl refl deref_old refl found_newer
      (omega arith) deref_newer refl allowed_newer

found_sample : find_session sample_imei sample_server.sessions ≡ some 0
unfolding find_session
found_sample = refl

relogin_leaks_example :
    (let r = login_parsed sample_platform sample_world (ok (b'1' ∷ [])) sample_conn sample_server in
      find_session sample_imei (hang_up sample_platform r.0 r.1).sessions ≡ some 0)
relogin_leaks_example =
    relogin_leaks sample_platform sample_world sample_imei (b'1' ∷ []) sample_conn sample_server 0
      sample_server-IsWellFormed found_sample (λ e. cc)

hang_up_before_connect_example :
    (let r = login_parsed sample_platform sample_world (ok sample_imei) sample_conn sample_server in
      let t = hang_up sample_platform r.0 r.1 in
      let u = run_task sample_platform sample_world (maybe_connect_tb r.0.sess sample_imei) t in
      (t.log ≡ r.1.log ++ (close 7 ∷ []))
      × (u.log ≡ t.log ++ (connect_device sample_imei ∷ []))
      × (find_session sample_imei u.sessions ≡ none))
unfolding uplink_allowed login_parsed hang_up register_session remove_session is_tb_connected deref
    find_session put_session
hang_up_before_connect_example =
    hang_up_before_connect sample_platform sample_world sample_world sample_imei sample_conn
      sample_server sample_server-IsWellFormed refl refl
