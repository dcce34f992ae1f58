-- ===== src/Server/Calls/Alone.antt =====
-- A goroutine that no other one interrupts does what `publish` and `connect_session` do.
use zx909_gw.Prelude.{
  ℕ, zero, suc, ◌≡◌, refl, inl, inr, true, false, Option, none, some, if◌then◌else◌, Bool-cases,
}
use zx909_gw.Bytes.{Bytes}
use zx909_gw.Platform.{Platform}
use zx909_gw.Server.State.{
  Server, World, Telemetry, connect_device, emit, find_session, is_tb_connected,
}
use zx909_gw.Server.Uplink.{
  is_empty, uplink_allowed, mark_found, ensure_tb_connected, publish_if, publish, connect_session,
}
use zx909_gw.Server.Calls.{
  idle, publishes, connects, asks, sends, looked_up, connected, asked, begins, advance, turns,
}

module _ (P : Platform) (w : World P) where
  open P use {Time}

  turns-idle : (n : ℕ) (s : Server P) → turns P n w idle s ≡ (idle, s)
  unfolding turns advance
  turns-idle zero s = refl
  turns-idle (suc n) s = turns-idle n s

  module _ (imei : Bytes) (ts : Time) (values : Telemetry P) where
    turns-sends :
        (n : ℕ) (s : Server P)
        → turns P (suc n) w (sends imei ts values) s ≡ (idle, publish_if P true w imei ts values s)
    unfolding turns advance publish_if
    turns-sends n s = turns-idle n _

    turns-asked :
        (n : ℕ) (p : Option ℕ) (s : Server P)
        → turns P (suc (suc n)) w (asked P p imei (some (ts, values))) s
          ≡ (idle, publish_if P true w imei ts values (mark_found P p s))
    unfolding asked mark_found connected turns advance
    turns-asked n none s = turns-sends (suc n) s
    turns-asked n (some p) s = turns-sends n _

    -- From `ConnectDevice` on.
    abbrev requested : Option ℕ → Server P → Server P
    requested p s =
        let t = emit P (connect_device imei) s in
        if w.connect_ok imei then publish_if P true w imei ts values (mark_found P p t) else t

    -- From the lookup on.
    abbrev ensured : Option ℕ → Server P → Server P
    ensured p s =
        if is_tb_connected P p s then publish_if P true w imei ts values s else requested p s

    turns-asks :
        (n : ℕ) (p : Option ℕ) (s : Server P)
        → turns P (suc (suc (suc n))) w (asks p imei (some (ts, values))) s ≡ (idle, requested p s)
    unfolding turns advance
    turns-asks n p s = elim (Bool-cases (w.connect_ok imei)) [
      | inl succeeds ↦ rw succeeds (turns-asked n p (emit P (connect_device imei) s))
      | inr fails ↦ rw fails (turns-idle (suc (suc n)) _)
    ]

    no_session : (s : Server P) → is_tb_connected P none s ≡ false
    unfolding is_tb_connected
    no_session s = refl

    turns-looked_up :
        (p : Option ℕ) (s : Server P)
        → turns P 4 w (looked_up P imei ts values p) s ≡ (idle, ensured p s)
    unfolding looked_up turns advance
    turns-looked_up none s = rw (no_session s) (turns-asks 1 none s)
    turns-looked_up (some p) s = elim (Bool-cases (is_tb_connected P (some p) s)) [
      | inl known ↦ rw known (turns-sends 2 s)
      | inr fresh ↦ rw fresh (turns-asks 0 (some p) s)
    ]

    ensured-publish :
        (s : Server P)
        → uplink_allowed P w imei s ≡ true
        → is_empty imei ≡ false
        → ensured (find_session imei s.sessions) s ≡ publish P w imei ts values s
    unfolding publish ensure_tb_connected publish_if
    ensured-publish s allowed named =
        elim (Bool-cases (is_tb_connected P (find_session imei s.sessions) s)) [
          | inl known ↦ rw (allowed, named, known) refl
          | inr fresh ↦ elim (Bool-cases (w.connect_ok imei)) [
            | inl succeeds ↦ rw (allowed, named, fresh, succeeds) refl
            | inr fails ↦ rw (allowed, named, fresh, fails) refl
          ]
        ]

    pub turns-publish :
        (s : Server P)
        → turns P 6 w (publishes imei ts values) s ≡ (idle, publish P w imei ts values s)
    turns-publish s = elim (Bool-cases (uplink_allowed P w imei s)) [
      | inl allowed ↦ elim (Bool-cases (is_empty imei)) [
        | inl empty ↦ unfold turns advance begins publish in rw (allowed, empty) (turns-idle 5 s)
        | inr named ↦ rw (← ensured-publish s allowed named) (
            unfold turns advance begins in
            rw (allowed, named) (turns-looked_up (find_session imei s.sessions) s))
      ]
      | inr refused ↦ elim (Bool-cases (is_empty imei)) [
        | inl empty ↦ unfold turns advance begins publish in rw (refused, empty) (turns-idle 5 s)
        | inr named ↦
            unfold turns advance begins publish ensure_tb_connected publish_if in
            rw (refused, named) (turns-idle 5 s)
      ]
    ]

  pub turns-connect_session :
      (p : Option ℕ) (imei : Bytes) (s : Server P)
      → turns P 3 w (connects p imei) s ≡ (idle, connect_session P w p imei s)
  unfolding turns advance begins asked connected connect_session
  turns-connect_session none imei s = refl
  turns-connect_session (some p) imei s = elim (Bool-cases (uplink_allowed P w imei s)) [
    | inl allowed ↦ elim (Bool-cases (is_empty imei)) [
      | inl empty ↦ rw (allowed, empty) refl
      | inr named ↦ elim (Bool-cases (w.connect_ok imei)) [
        | inl succeeds ↦ rw (allowed, named, succeeds) refl
        | inr fails ↦ rw (allowed, named, fails) refl
      ]
    ]
    | inr refused ↦ elim (Bool-cases (is_empty imei)) [
      | inl empty ↦ rw (refused, empty) refl
      | inr named ↦ rw (refused, named) refl
    ]
  ]

  -- A goroutine that no other one interrupts is at its end after at most six steps of a publication and
  -- at most three of `maybeConnectTB`, with the effect that `publish` and `connect_session` have,
  -- whatever the environment answers.
  pub turns-sequential :
      (p : Option ℕ) (imei : Bytes) (ts : Time) (values : Telemetry P) (s : Server P)
      → (turns P 6 w (publishes imei ts values) s ≡ (idle, publish P w imei ts values s))
        × (turns P 3 w (connects p imei) s ≡ (idle, connect_session P w p imei s))
  turns-sequential p imei ts values s =
      (turns-publish imei ts values s, turns-connect_session p imei s)
