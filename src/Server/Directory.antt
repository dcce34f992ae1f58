-- ===== src/Server/Directory.antt =====
-- The session map as a directory: what the server promises about it, apart from how it is kept.
pub mod Gone
pub mod Tests
use mathlib.Core.Path.{subst}
use zx909_gw.Prelude.{
  ℕ, suc, ◌<◌, ◌≡◌, ◌≢◌, refl, ap, ◌∙◌, sym, inl, inr, Bool, true, false, ◌&&◌, List, [], ◌∷◌,
  Option, none, some, arith, if◌then◌else◌, ◌==◌, Bool-cases, Option-cases,
}
use zx909_gw.Bytes.{Bytes}
use zx909_gw.Platform.{Platform}
use zx909_gw.Protocol.Frame.{Frame}
use zx909_gw.Protocol.Parsed.{Parsed, ok, err}
use zx909_gw.Protocol.Ack.{build_login_ack}
use zx909_gw.Protocol.Login.{parse_login}
use zx909_gw.Server.State.{
  Server, World, write, same_string, find_session, emit, is_current, remove_session,
  register_session,
}
use zx909_gw.Server.Uplink.{is_empty}
use zx909_gw.Server.Handle.{Conn, hang_up, login_parsed, handle_frame}
use zx909_gw.Server.Keeps.{IsWellFormed, Keeps, run_task-Keeps, emit-Keeps}
use zx909_gw.Server.WellFormed.{other-Keeps, send_to_device-Keeps}
use zx909_gw.Server.WellFormed.Reach.{
  Step, frames, hangs_up, runs, sends, Reach, here, next, Step-IsWellFormed,
}
use zx909_gw.Server.Reconnect.{
  login-find_session, hang_up-find_session, hang_up-sessions, close_old-sessions, and_true,
  and_false,
}

-- Which session each IMEI has, and the number of the next session.
pub record Directory : Type 0 where
  pub lookup : Bytes → Option ℕ
  pub next : ℕ

abbrev pub enter : Bytes → Directory → Directory
enter imei d = record {
  lookup = λ k. if same_string imei k then some d.next else d.lookup k;
  next = suc d.next;
}

abbrev pub leave : Bytes → Directory → Directory
leave imei d = record d { lookup = λ k. if same_string imei k then none else d.lookup k }

-- What a step asks of the directory: nothing, a new session for an IMEI, or the end of a connection that
-- has an IMEI and a session.
pub data Action : Type 0 where
  nothing : Action
  logs_in : Bytes → Action
  ends : Bytes → Option ℕ → Action

-- The end of a connection takes its IMEI out only if the directory leads from it to the connection's own
-- session.
abbrev pub has_session : Option ℕ → Option ℕ → Bool
has_session none own = false
has_session (some p) none = false
has_session (some p) (some q) = p == q

abbrev pub act : Action → Directory → Directory
act nothing d = d
act (logs_in imei) d = enter imei d
act (ends [] own) d = d
act (ends (b ∷ bs) own) d = if has_session (d.lookup (b ∷ bs)) own then leave (b ∷ bs) d else d

-- A frame of protocol 0x01 with a body that can be parsed logs its IMEI in.
abbrev pub login_action : Parsed Bytes → Action
login_action (ok imei) = logs_in imei
login_action (err e) = nothing

module _ (P : Platform) where
  abbrev pub directory : Server P → Directory
  directory s = record { lookup = λ k. find_session k s.sessions; next = s.next }

  abbrev pub action_of : {s t : Server P} → Step P s t → Action
  action_of (frames w f c) = if f.proto == 0x01 then login_action (parse_login f.body) else nothing
  action_of (hangs_up c) = ends c.imei c.sess
  action_of (runs w t) = nothing
  action_of (sends w imei payload) = nothing

  -- The directory of `t` is `e`, if the lookups and the number of the next session agree.
  directory-same :
      (t : Server P) (e : Directory)
      → ((k : Bytes) → find_session k t.sessions ≡ e.lookup k)
      → t.next ≡ e.next
      → directory t ≡ e
  directory-same t e lookups nexts i = record { lookup = λ k. lookups k i; next = nexts i }

  Keeps-directory : (s t : Server P) → Keeps P s t → directory t ≡ directory s
  Keeps-directory s t kept =
      directory-same t (directory s) (λ k. ap (find_session k) kept.same_map) kept.same_next

  login_parsed-next :
      (w : World P) (id : Bytes) (c : Conn) (s : Server P)
      → (login_parsed P w (ok id) c s).1.next ≡ suc s.next
  unfolding login_parsed register_session
  login_parsed-next w id c s = ap suc (close_old-sessions P (find_session id s.sessions) c.id s).2

  login_parsed-directory :
      (w : World P) (r : Parsed Bytes) (c : Conn) (s : Server P)
      → directory (login_parsed P w r c s).1 ≡ act (login_action r) (directory s)
  unfolding login_parsed
  login_parsed-directory w (err e) c s =
      Keeps-directory s _ (emit-Keeps P (write c.id build_login_ack) s)
  login_parsed-directory w (ok id) c s =
      directory-same (login_parsed P w (ok id) c s).1 (enter id (directory s))
        (λ k. (login-find_session P w id k c s).0) (login_parsed-next w id c s)

  handle_frame-directory :
      (w : World P) (f : Frame) (c : Conn) (s : Server P)
      → directory (handle_frame P w f c s).1 ≡ act (action_of {s = s} (frames w f c)) (directory s)
  handle_frame-directory w f c s = elim (Bool-cases (f.proto == 0x01)) [
    | inl is_login ↦
        unfold handle_frame in rw is_login (login_parsed-directory w (parse_login f.body) c s)
    | inr other ↦ rw other (Keeps-directory s _ (other-Keeps P w f c s other))
  ]

  hang_up-next : (c : Conn) (s : Server P) → (hang_up P c s).next ≡ s.next
  unfolding hang_up emit remove_session
  hang_up-next c s = ground arith

  is_current-has_session : (cur own : Option ℕ) → is_current P cur own ≡ has_session cur own
  unfolding is_current
  is_current-has_session none own = refl
  is_current-has_session (some p) none = refl
  is_current-has_session (some p) (some q) = refl

  module _ (c : Conn) (b : ℕ) (bs : Bytes) (s : Server P) (v : IsWellFormed P s)
      (e : c.imei ≡ b ∷ bs) where
    ended_lookup :
        (k : Bytes)
        → find_session k (hang_up P c s).sessions ≡ (
            if same_string (b ∷ bs) k && has_session (find_session (b ∷ bs) s.sessions) c.sess
            then none
            else find_session k s.sessions)
    ended_lookup k =
        subst
          (λ i. find_session k (hang_up P c s).sessions ≡ (
            if same_string i k && has_session (find_session i s.sessions) c.sess
            then none
            else find_session k s.sessions))
          e
          (hang_up-find_session P c k s v (ap is_empty e)
            ∙ ap (λ x. if same_string c.imei k && x then none else find_session k s.sessions)
                (is_current-has_session (find_session c.imei s.sessions) c.sess))

    ended : directory (hang_up P c s) ≡ act (ends (b ∷ bs) c.sess) (directory s)
    ended = elim (Bool-cases (has_session (find_session (b ∷ bs) s.sessions) c.sess)) [
      | inl current ↦ rw current (
          directory-same (hang_up P c s) (leave (b ∷ bs) (directory s))
            (λ k.
              ended_lookup k
              ∙ ap (λ x. if same_string (b ∷ bs) k && x then none else find_session k s.sessions)
                  current
              ∙ ap (λ x. if x then none else find_session k s.sessions)
                  (sym (and_true (same_string (b ∷ bs) k))))
            (hang_up-next c s))
      | inr stale ↦ rw stale (
          directory-same (hang_up P c s) (directory s)
            (λ k.
              ended_lookup k
              ∙ ap (λ x. if same_string (b ∷ bs) k && x then none else find_session k s.sessions)
                  stale
              ∙ ap (λ x. if x then none else find_session k s.sessions)
                  (sym (and_false (same_string (b ∷ bs) k))))
            (hang_up-next c s))
    ]

  hang_up-directory :
      (c : Conn) (s : Server P)
      → IsWellFormed P s
      → directory (hang_up P c s) ≡ act (ends c.imei c.sess) (directory s)
  hang_up-directory c s v = by_imei c.imei refl
    where
      by_imei :
          (k : Bytes) → c.imei ≡ k → directory (hang_up P c s) ≡ act (ends k c.sess) (directory s)
      by_imei [] e =
          directory-same (hang_up P c s) (directory s)
            (λ k. ap (find_session k) (hang_up-sessions P c s) ∙ rw e refl) (hang_up-next c s)
      by_imei (b ∷ bs) e = ended c b bs s v e

  -- Every step of a well-formed server changes the directory of its sessions by exactly what it asks
  -- for: a frame of a login that can be parsed enters its IMEI with a session number that is given out
  -- for the first time; the end of a connection that has an IMEI takes it out if, and only if, the
  -- directory leads from it to that connection's own session; any other frame, a goroutine and a command
  -- change nothing.
  pub directory-act :
      {s t : Server P} (st : Step P s t)
      → IsWellFormed P s
      → directory t ≡ act (action_of st) (directory s)
  directory-act {s} (frames w f c) v = handle_frame-directory w f c s
  directory-act {s} (hangs_up c) v = hang_up-directory c s v
  directory-act {s} (runs w t) v = Keeps-directory s _ (run_task-Keeps P w t s)
  directory-act {s} (sends w imei payload) v =
      Keeps-directory s _ (send_to_device-Keeps P w imei payload s)
