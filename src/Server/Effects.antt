-- ===== src/Server/Effects.antt =====
-- What the server's operations ask of others, as what they add to the log.
pub mod Reply
use mathlib.Core.Path.{subst}
use zx909_gw.Prelude.Int.{pos, ltb_ℤ}
use zx909_gw.Prelude.{
  ℕ, ◌≡◌, ◌≢◌, refl, ap, ◌∙◌, sym, ◌⊎◌, inl, inr, ◌++◌, Bool, true, false, not, ◌&&◌, List, [], ◌∷◌,
  Option, none, some, arith, append-nil, append_assoc, if◌then◌else◌, ◌==◌, Bool-cases,
  Option-cases,
}
use zx909_gw.Bytes.{Bytes}
use zx909_gw.Platform.{Platform}
use zx909_gw.Protocol.Frame.{Frame, is_gps, is_wifi_lbs}
use zx909_gw.Protocol.Parsed.{Parsed, ok, err}
use zx909_gw.Protocol.Status.{Status, parse_status}
use zx909_gw.Protocol.Gps.{Position, parse_gps}
use zx909_gw.Protocol.WifiLbs.{WifiLbs, parse_wifi_lbs}
use zx909_gw.Protocol.Ack.{
  build_login_ack, build_datetime_ack, build_status_echo, datetime_from_body,
}
use zx909_gw.Protocol.Commands.{build_default_settings, build_time_sync_reply}
use zx909_gw.Server.State.{
  Server, World, Telemetry, Output, write, close, connect_device, disconnect_device,
  publish_telemetry, emit, touch, find_session, deref, is_tb_connected, mark_connected,
  register_session, close_old,
}
use zx909_gw.Server.Uplink.{
  is_empty, uplink_allowed, ensure_tb_connected, mark_found, publish_if, publish,
}
use zx909_gw.Server.Handle.{
  Conn, login_parsed, iccid_parsed, status_parsed, gps_parsed, wifi_lbs_parsed, ack_datetime,
  handle_gps, handle_wifi_lbs, handle_status, handle_frame,
}

abbrev pub All {ℓ κ} : {A : Type ℓ} → (A → Type κ) → List A → Type κ
All Q [] = Unit
All Q (x ∷ xs) = Q x × All Q xs

pub All-append {ℓ κ} :
    {A : Type ℓ} (Q : A → Type κ) (xs ys : List A) → All Q xs → All Q ys → All Q (xs ++ ys)
All-append Q [] ys h k = k
All-append Q (x ∷ xs) ys h k = (h.0, All-append Q xs ys h.1 k)

pub All-map {ℓ κ μ} :
    {A : Type ℓ} (Q : A → Type κ) (R : A → Type μ) (xs : List A)
    → ((x : A) → Q x → R x)
    → All Q xs
    → All R xs
All-map Q R [] f h = tt
All-map Q R (x ∷ xs) f h = (f x h.0, All-map Q R xs f h.1)

module _ (P : Platform) where
  open P use {Time, is_zero}

  -- `imei` may use the uplink: it is not empty, and the registry is off or knows it.
  abbrev pub Allowed : World P → Bool → Bytes → Type 0
  Allowed w reg_enabled imei =
      (is_empty imei ≡ false) × ((reg_enabled ≡ false) ⊎ (w.is_registered imei ≡ true))

  -- The requests that a frame on connection `conn` with identity `imei` may lead to: for that
  -- identity alone, where it may use the uplink, and the closing of another connection.
  abbrev pub Permitted : World P → Bool → Bytes → ℕ → Output P → Type 0
  Permitted w reg imei conn (connect_device k) = (k ≡ imei) × Allowed w reg k
  Permitted w reg imei conn (publish_telemetry k _ _) = (k ≡ imei) × Allowed w reg k
  Permitted w reg imei conn (close other) = other ≢ conn
  Permitted w reg imei conn (write _ _) = ⊥
  Permitted w reg imei conn (disconnect_device _) = ⊥

  -- From `s` to `t` the log grows by requests of kind `Q` and then by `reply`.
  pub record Logs (Q : Output P → Type 0) (reply : List (Output P)) (s t : Server P) : Type 0 where
    pub before : List (Output P)
    pub logs : t.log ≡ s.log ++ (before ++ reply)
    pub kind : All Q before

  pub Logs-none : {Q : Output P → Type 0} (s t : Server P) → t.log ≡ s.log → Logs Q [] s t
  Logs-none s t e = record { before = []; logs = e ∙ sym (append-nil s.log); kind = tt }

  pub Logs-reply :
      {Q : Output P → Type 0} (reply : List (Output P)) (s t : Server P)
      → t.log ≡ s.log ++ reply
      → Logs Q reply s t
  Logs-reply reply s t e = record { before = []; logs = e; kind = tt }

  -- A reply written after uplink requests.
  pub Logs-emit :
      {Q : Output P → Type 0} {s t : Server P} (o : Output P)
      → Logs Q [] s t
      → Logs Q (o ∷ []) s (emit P o t)
  unfolding emit
  Logs-emit {s} o l = record {
    before = l.before;
    logs =
        ap (λ xs. xs ++ (o ∷ [])) (l.logs ∙ ap (◌++◌ s.log) (append-nil l.before))
        ∙ append_assoc s.log l.before (o ∷ []);
    kind = l.kind;
  }

  -- A first step that leaves the log and the registry switch alone.
  pub Logs-after :
      {Q : Output P → Type 0} {reply : List (Output P)} {s t u : Server P}
      → t.log ≡ s.log
      → Logs Q reply t u
      → Logs Q reply s u
  Logs-after {reply} e l = record {
    before = l.before;
    logs = l.logs ∙ ap (λ xs. xs ++ (l.before ++ reply)) e;
    kind = l.kind;
  }

  pub touch-log : (now : Time) (p : Option ℕ) (s : Server P) → (touch P now p s).log ≡ s.log
  unfolding touch
  touch-log now none s = refl
  touch-log now (some p) s = refl

  pub touch-reg_enabled :
      (now : Time) (p : Option ℕ) (s : Server P) → (touch P now p s).reg_enabled ≡ s.reg_enabled
  unfolding touch
  touch-reg_enabled now none s = refl
  touch-reg_enabled now (some p) s = refl

  pub mark_found-log : (p : Option ℕ) (s : Server P) → (mark_found P p s).log ≡ s.log
  unfolding mark_found mark_connected
  mark_found-log none s = refl
  mark_found-log (some p) s = refl

  pub uplink_allowed-Allowed :
      (w : World P) (imei : Bytes) (s : Server P)
      → uplink_allowed P w imei s ≡ true
      → Allowed w s.reg_enabled imei
  unfolding uplink_allowed
  uplink_allowed-Allowed w imei s h = ground arith

  -- The log after `ensureTBConnected`.
  pub ensure-log :
      (w : World P) (imei : Bytes) (s : Server P)
      → (((ensure_tb_connected P w imei s).0 ≡ false)
          × ((ensure_tb_connected P w imei s).1.log ≡ s.log))
        ⊎ (Allowed w s.reg_enabled imei
            × (((ensure_tb_connected P w imei s).1.log ≡ s.log)
                ⊎ ((ensure_tb_connected P w imei s).1.log ≡ s.log ++ (connect_device imei ∷ []))))
  unfolding ensure_tb_connected
  ensure-log w imei s = elim (Bool-cases (uplink_allowed P w imei s)) [
    | inr refused ↦ inl (ground arith, ground arith)
    | inl granted ↦ inr (
      uplink_allowed-Allowed w imei s granted,
      elim (Bool-cases (is_tb_connected P (find_session imei s.sessions) s)) [
        | inl known ↦ inl (ground arith)
        | inr fresh ↦ inr (
            ground (
              arith,
              mark_found-log (find_session imei s.sessions) (emit P (connect_device imei) s),
            ))
      ],
    )
  ]

  pub publish_if-Logs :
      (b : Bool) (w : World P) (imei : Bytes) (conn : ℕ) (ts : Time) (values : Telemetry P)
      (s r : Server P)
      → Allowed w s.reg_enabled imei
      → (r.log ≡ s.log) ⊎ (r.log ≡ s.log ++ (connect_device imei ∷ []))
      → Logs (Permitted w s.reg_enabled imei conn) [] s (publish_if P b w imei ts values r)
  unfolding publish_if
  publish_if-Logs false w imei conn ts values s r a (inl e) = Logs-none s r e
  publish_if-Logs false w imei conn ts values s r a (inr e) = record {
    before = connect_device imei ∷ [];
    logs = e;
    kind = ((refl, a), tt);
  }
  publish_if-Logs true w imei conn ts values s r a (inl e) = record {
    before = publish_telemetry imei (if is_zero ts then w.later else ts) values ∷ [];
    logs =
        ap (λ xs. xs ++ (publish_telemetry imei (if is_zero ts then w.later else ts) values ∷ []))
          e;
    kind = ((refl, a), tt);
  }
  publish_if-Logs true w imei conn ts values s r a (inr e) = record {
    before =
        connect_device imei
        ∷ publish_telemetry imei (if is_zero ts then w.later else ts) values
        ∷ [];
    logs =
        ap (λ xs. xs ++ (publish_telemetry imei (if is_zero ts then w.later else ts) values ∷ [])) e
        ∙ append_assoc s.log (connect_device imei ∷ []) _;
    kind = ((refl, a), ((refl, a), tt));
  }

  pub publish-Logs :
      (w : World P) (imei : Bytes) (conn : ℕ) (ts : Time) (values : Telemetry P) (s : Server P)
      → Logs (Permitted w s.reg_enabled imei conn) [] s (publish P w imei ts values s)
  unfolding publish
  publish-Logs w imei conn ts values s = elim (Bool-cases (is_empty imei)) [
    | inl empty ↦ rw empty (Logs-none s s refl)
    | inr named ↦ rw named (elim (ensure-log w imei s) [
      | inl (no_uplink, e) ↦ rw no_uplink (unfold publish_if in Logs-none s _ e)
      | inr (a, e) ↦
          let r = ensure_tb_connected P w imei s in
          publish_if-Logs r.0 w imei conn ts values s r.1 a e
    ])
  ]
