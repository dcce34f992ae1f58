-- ===== src/Gateway/Confirmed.antt =====
-- From the configuration to the messages at ThingsBoard.
use mathlib.Core.Path.{subst}
use zx909_gw.Prelude.{◌≡◌, refl, ◌∙◌, inl, inr, ◌⊎◌, true, false, List, ◌++◌, some}
use zx909_gw.Prelude.Int.{ℤ}
use zx909_gw.Bytes.{Bytes}
use zx909_gw.Platform.{Platform}
use zx909_gw.Protocol.Frame.{Frame}
use zx909_gw.Server.State.{Server, World, Output}
use zx909_gw.Server.Uplink.{is_empty}
use zx909_gw.Server.Handle.{Conn, handle_frame}
use zx909_gw.Server.Effects.{All-map}
use zx909_gw.Registry.{Service, cache_get}
use zx909_gw.Registry.{Client as RegistryClient}
use zx909_gw.Registry.Answers.{IsConfirmed, is_registered-IsConfirmed}
use zx909_gw.Mqtt.{Broker, GatewayClient, Message, gateway_client, perform_all}
use zx909_gw.Mqtt.Uplink.{device_of, Publishes, IsAbout, handle_frame-Publishes}
use zx909_gw.Config.{PaapeliConfig}
use zx909_gw.Gateway.{paapeli, new_registry, registry_enabled, registry_answer, registry_world}

-- The registry client vouches for the IMEI: a fresh answer in its cache, or one of the service.
abbrev pub Vouches : Service → RegistryClient → Bytes → Type 0
Vouches sv c imei = (cache_get sv.now imei c ≡ some true) ⊎ IsConfirmed sv imei

-- The registry is asked exactly if it is enabled and has a URL and a user.
new_registry_enabled :
    (cfg : PaapeliConfig)
    → cfg.enabled ≡ true
    → is_empty cfg.base_url ≡ false
    → is_empty cfg.username ≡ false
    → registry_enabled (new_registry cfg) ≡ true
unfolding new_registry registry_enabled
new_registry_enabled cfg on url user = rw (on, url, user, new_registry) refl

module _ (P : Platform) (B : Broker P) (sv : Service) where
  -- Messages that name the IMEI, which is not empty and which the registry client vouches for.
  abbrev pub IsVouched : RegistryClient → Bytes → Message P → Type 0
  IsVouched c imei m =
      (device_of P B m.payload ≡ imei) × (is_empty imei ≡ false) × Vouches sv c imei

  IsAbout-IsVouched :
      (timeout : ℤ) (c : RegistryClient) (w : World P) (imei : Bytes) (m : Message P)
      → IsAbout P B (registry_world P sv (paapeli timeout c) w) true imei m
      → IsVouched c imei m
  unfolding registry_answer
  IsAbout-IsVouched timeout c w imei m (same, (named, inl off)) = absurd (cc)
  IsAbout-IsVouched timeout c w imei m (same, (named, inr known)) =
      (same, named, (is_registered-IsConfirmed sv imei c known).1)

  Publishes-map :
      (Q R : Message P → Type 0) (g h : GatewayClient P)
      → ((m : Message P) → Q m → R m)
      → Publishes P B Q g h
      → Publishes P B R g h
  Publishes-map Q R g h f p = record {
    messages = p.messages;
    grown = p.grown;
    kind = All-map Q R p.messages f p.kind;
  }

  -- On a gateway whose registry is enabled with a URL and a user, let the registry client be in any
  -- state. Every message that the gateway client publishes for a frame names the IMEI of the
  -- connection, which is not empty, and for which the registry client has an unexpired "registered" in
  -- its cache or gets it from the service with a status from 200 to 299.
  pub handle_frame-IsVouched :
      (cfg : PaapeliConfig) (timeout : ℤ) (c : RegistryClient) (w : World P) (conn : Conn)
      (s : Server P) (f : Frame) (g : GatewayClient P)
      → cfg.enabled ≡ true
      → is_empty cfg.base_url ≡ false
      → is_empty cfg.username ≡ false
      → s.reg_enabled ≡ registry_enabled (new_registry cfg)
      → (os : List (Output P)) × ((handle_frame P
            (registry_world P sv (paapeli timeout c) w)
            f
            conn
            s).1.log
          ≡ s.log ++ os)
        × Publishes P B (IsVouched c conn.imei) g (perform_all P (gateway_client P B) os g)
  handle_frame-IsVouched cfg timeout c w conn s f g on url user same =
      let w' = registry_world P sv (paapeli timeout c) w in
      let (os, logs, p) = handle_frame-Publishes P B w' conn s f g in
      let enabled : s.reg_enabled ≡ true = same ∙ new_registry_enabled cfg on url user in
      (
        os,
        logs,
        Publishes-map (IsAbout P B w' true conn.imei) (IsVouched c conn.imei) g
            (perform_all P (gateway_client P B) os g) (IsAbout-IsVouched timeout c w conn.imei)
            (subst
              (λ b.
                Publishes P B (IsAbout P B w' b conn.imei) g
                  (perform_all P (gateway_client P B) os g))
              enabled p),
      )
