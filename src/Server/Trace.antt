-- ===== src/Server/Trace.antt =====
-- What the server asks of ThingsBoard while the registry is on: the steps that handle a frame or end a
-- connection.
pub mod Turns
use mathlib.Core.Path.{subst}
use zx909_gw.Prelude.{
  ℕ, ◌≡◌, refl, ap, ◌∙◌, sym, inl, inr, ◌⊎◌, Bool, true, false, not, List, [], ◌∷◌, ◌++◌, Option,
  none, some, arith, if◌then◌else◌, ◌==◌, append-nil, Bool-cases, Option-cases,
}
use zx909_gw.Bytes.{Bytes}
use zx909_gw.Platform.{Platform}
use zx909_gw.Protocol.Frame.{Frame, is_gps, is_wifi_lbs}
use zx909_gw.Protocol.Parsed.{Parsed, ok, err}
use zx909_gw.Protocol.Login.{parse_login}
use zx909_gw.Server.State.{
  Server, World, Task, maybe_connect_tb, resolve_and_publish_lbs, lbs_wifi, Output, write, close,
  connect_device, disconnect_device, publish_telemetry, emit, find_session, deref, is_current,
  register_session, remove_session, close_old, mark_connected, is_tb_connected,
}
use zx909_gw.Server.Uplink.{
  is_empty, uplink_allowed, connect_session, publish_located, publish, run_task,
}
use zx909_gw.Server.Handle.{Conn, hang_up, login_parsed, handle_frame, send_to_device}
use zx909_gw.Server.Effects.{
  All, All-append, All-map, Allowed, Permitted, Logs, Logs-none, uplink_allowed-Allowed,
  publish-Logs,
}
use zx909_gw.Server.Effects.Reply.{reply, handle_frame-Logs}
use zx909_gw.Server.Keeps.{Keeps, run_task-Keeps, emit-Keeps}
use zx909_gw.Server.WellFormed.{close_old-Keeps, other-Keeps, send_to_device-Keeps}
use zx909_gw.Server.WellFormed.Reach.{new_server}

module _ (P : Platform) (Known : Bytes → Type 0) where
  -- The registry says yes only to IMEIs that are known.
  abbrev pub Honest : World P → Type 0
  Honest w = (k : Bytes) → w.is_registered k ≡ true → Known k

  -- The steps of the server, in worlds with an honest registry.
  pub data Turn (s : Server P) : Server P → Type 0 where
    frames : (w : World P) (f : Frame) (c : Conn) → Honest w → Turn s (handle_frame P w f c s).1
    hangs_up : (c : Conn) → Turn s (hang_up P c s)
    runs : (w : World P) (t : Task P) → Honest w → Turn s (run_task P w t s)
    sends : (w : World P) (imei payload : Bytes) → Turn s (send_to_device P w imei payload s).1

  pub data Run (s : Server P) : Server P → Type 0 where
    done : Run s s
    turn : {t u : Server P} → Run s t → Turn t u → Run s u

  -- A request for a device, its connection or its telemetry, is for a known IMEI.
  abbrev pub IsClear : Output P → Type 0
  IsClear (connect_device k) = (is_empty k ≡ false) × Known k
  IsClear (publish_telemetry k _ _) = (is_empty k ≡ false) × Known k
  IsClear (write _ _) = Unit {0}
  IsClear (close _) = Unit {0}
  IsClear (disconnect_device _) = Unit {0}

  pub Allowed-Known :
      (w : World P) (k : Bytes) → Honest w → Allowed P w true k → (is_empty k ≡ false) × Known k
  Allowed-Known w k honest (named, inl off) = absurd (cc)
  Allowed-Known w k honest (named, inr known) = (named, honest k known)

  Permitted-IsClear :
      (w : World P) (imei : Bytes) (conn : ℕ) (o : Output P)
      → Honest w
      → Permitted P w true imei conn o
      → IsClear o
  Permitted-IsClear w imei conn (connect_device k) honest h = Allowed-Known w k honest h.1
  Permitted-IsClear w imei conn (publish_telemetry k _ _) honest h = Allowed-Known w k honest h.1
  Permitted-IsClear w imei conn (write _ _) honest h = tt
  Permitted-IsClear w imei conn (close _) honest h = tt
  Permitted-IsClear w imei conn (disconnect_device _) honest h = tt

  -- The registry is on, and every request so far is clear.
  pub record IsTraced (s : Server P) : Type 0 where
    pub registry_on : s.reg_enabled ≡ true
    pub clear : All IsClear s.log

  pub Logs-IsTraced :
      {s t : Server P} (w : World P) (imei : Bytes) (conn : ℕ) (rs : List (Output P))
      → Honest w
      → Logs P (Permitted P w s.reg_enabled imei conn) rs s t
      → All IsClear rs
      → t.reg_enabled ≡ s.reg_enabled
      → IsTraced s
      → IsTraced t
  Logs-IsTraced {s} {t} w imei conn rs honest l replies same v =
      let allowed =
        All-map (Permitted P w s.reg_enabled imei conn) IsClear l.before
          (λ o h.
            Permitted-IsClear w imei conn o honest
              (subst (λ b. Permitted P w b imei conn o) v.registry_on h))
          l.kind in
      record {
        registry_on = same ∙ v.registry_on;
        clear = subst (All IsClear) (sym l.logs) (
            All-append IsClear s.log (l.before ++ rs) v.clear
              (All-append IsClear l.before rs allowed replies));
      }

  record AreReplies (os : List (Output P)) : Type 0 where
    clear : All IsClear os

  if-AreReplies :
      (b : Bool) (xs ys : List (Output P))
      → AreReplies xs
      → AreReplies ys
      → AreReplies (if b then xs else ys)
  if-AreReplies true xs ys h k = h
  if-AreReplies false xs ys h k = k

  one_reply : (conn : ℕ) (bytes : Bytes) → AreReplies (write conn bytes ∷ [])
  one_reply conn bytes = record { clear = (tt, tt) }

  no_reply : AreReplies []
  no_reply = record { clear = tt }

  reply-AreReplies :
      (w : World P) (c : Conn) (s : Server P) (f : Frame) → AreReplies (reply P w c s f)
  reply-AreReplies w c s f = search (if-AreReplies, one_reply, no_reply) depth 12

  login_parsed-reg_enabled :
      (w : World P) (r : Parsed Bytes) (c : Conn) (s : Server P)
      → (login_parsed P w r c s).1.reg_enabled ≡ s.reg_enabled
  unfolding login_parsed register_session close_old emit
  login_parsed-reg_enabled w (err e) c s = refl
  login_parsed-reg_enabled w (ok id) c s =
      (close_old-Keeps P (find_session id s.sessions) c.id s).same_reg

  handle_frame-reg_enabled :
      (w : World P) (f : Frame) (c : Conn) (s : Server P)
      → (handle_frame P w f c s).1.reg_enabled ≡ s.reg_enabled
  handle_frame-reg_enabled w f c s = elim (Bool-cases (f.proto == 0x01)) [
    | inl is_login ↦
        unfold handle_frame in rw is_login (login_parsed-reg_enabled w (parse_login f.body) c s)
    | inr other ↦ (other-Keeps P w f c s other).same_reg
  ]

  pub frames-IsTraced :
      (w : World P) (f : Frame) (c : Conn) (s : Server P)
      → Honest w
      → IsTraced s
      → IsTraced (handle_frame P w f c s).1
  frames-IsTraced w f c s honest v =
      Logs-IsTraced w c.imei c.id (reply P w c s f) honest (handle_frame-Logs P w c s f)
        (reply-AreReplies w c s f).clear (handle_frame-reg_enabled w f c s) v

  pub if-IsTraced :
      (b : Bool) (s t : Server P) → IsTraced s → IsTraced t → IsTraced (if b then s else t)
  if-IsTraced true s t v u = v
  if-IsTraced false s t v u = u

  -- A request that is no request for a device.
  pub emit-IsTraced : (o : Output P) (s : Server P) → IsClear o → IsTraced s → IsTraced (emit P o s)
  unfolding emit
  emit-IsTraced o s clear v = record {
    registry_on = v.registry_on;
    clear = All-append IsClear s.log (o ∷ []) v.clear (clear, tt);
  }

  pub remove_session-IsTraced :
      (imei : Bytes) (sess : Option ℕ) (s : Server P)
      → IsTraced s
      → IsTraced (remove_session P imei sess s)
  unfolding remove_session
  remove_session-IsTraced imei sess s v =
      if-IsTraced (is_current P (find_session imei s.sessions) sess) _ s
        (record { registry_on = v.registry_on; clear = v.clear }) v

  pub hang_up-IsTraced : (c : Conn) (s : Server P) → IsTraced s → IsTraced (hang_up P c s)
  unfolding hang_up
  hang_up-IsTraced c s v =
      let removed = remove_session-IsTraced c.imei c.sess s v in
      emit-IsTraced (close c.id) _ tt (
        if-IsTraced (is_empty c.imei) s _ v (
          if-IsTraced (is_tb_connected P c.sess (remove_session P c.imei c.sess s)) _ _
            (emit-IsTraced (disconnect_device c.imei) _ tt removed) removed))
