-- ===== src/Mqtt/Uplink.antt =====
-- The messages that reach ThingsBoard when the server handles a frame.
use zx909_gw.Prelude.{
  ℕ, ◌≡◌, refl, ap, ◌∙◌, sym, inl, inr, Bool, List, [], ◌∷◌, ◌++◌, arith, append-nil, append_assoc,
  Bool-cases,
}
use zx909_gw.Bytes.{Bytes}
use zx909_gw.Platform.{Platform}
use zx909_gw.Protocol.Frame.{Frame}
use zx909_gw.Server.State.{
  Server, World, Output, write, close, connect_device, disconnect_device, publish_telemetry,
}
use zx909_gw.Server.Handle.{Conn, handle_frame}
use zx909_gw.Server.Effects.{All, All-append, Allowed, Permitted}
use zx909_gw.Server.Effects.Reply.{reply, handle_frame-Logs}
use zx909_gw.Mqtt.{
  Message, Broker, GatewayClient, Payload, connects, disconnects, sample, response, gateway_client,
  gateway_connect_device, gateway_publish_telemetry, publish_message, perform, perform_all,
}

module _ (P : Platform) (B : Broker P) where
  -- The device that a payload names.
  abbrev pub device_of : Payload P → Bytes
  device_of (connects device _) = device
  device_of (disconnects device) = device
  device_of (sample device _ _) = device
  device_of (response device _ _) = device

  -- Only messages of kind `Q` were published between `g` and `h`, and nothing else changed.
  pub record Publishes (Q : Message P → Type 0) (g h : GatewayClient P) : Type 0 where
    pub messages : List (Message P)
    pub grown : h ≡ record g { published = g.published ++ messages }
    pub kind : All Q messages

  Publishes-none : {Q : Message P → Type 0} (g : GatewayClient P) → Publishes Q g g
  Publishes-none g = record {
    messages = [];
    grown = ap (λ ms. record g { published = ms }) (sym (append-nil g.published));
    kind = tt;
  }

  Publishes-trans :
      {Q : Message P → Type 0} {g h k : GatewayClient P}
      → Publishes Q g h
      → Publishes Q h k
      → Publishes Q g k
  Publishes-trans {g} a b = record {
    messages = a.messages ++ b.messages;
    grown =
        b.grown
        ∙ ap (λ (x : GatewayClient P). record x { published = x.published ++ b.messages }) a.grown
        ∙ ap (λ ms. record g { published = ms }) (append_assoc g.published a.messages b.messages);
    kind = All-append _ a.messages b.messages a.kind b.kind;
  }

  -- The messages about one device, where it may use the uplink.
  abbrev pub IsAbout : World P → Bool → Bytes → Message P → Type 0
  IsAbout w reg imei m = (device_of m.payload ≡ imei) × Allowed P w reg imei

  perform-Publishes :
      (w : World P) (reg : Bool) (imei : Bytes) (conn : ℕ) (o : Output P) (g : GatewayClient P)
      → Permitted P w reg imei conn o
      → Publishes (IsAbout w reg imei) g (perform P (gateway_client P B) o g).1
  unfolding perform gateway_connect_device gateway_publish_telemetry publish_message
  perform-Publishes w reg imei conn (connect_device k) g (same, a) = record {
    messages = _ ∷ [];
    grown = refl;
    kind = ((same, rw (← same) a), tt);
  }
  perform-Publishes w reg imei conn (publish_telemetry k ts values) g (same, a) =
      elim (Bool-cases (B.marshals (sample k (B.unix_milli ts) values))) [
        | inl fits ↦
            rw fits (record { messages = _ ∷ []; grown = refl; kind = ((same, rw (← same) a), tt) })
        | inr broken ↦ rw broken (Publishes-none g)
      ]
  perform-Publishes w reg imei conn (close other) g h = Publishes-none g
  perform-Publishes w reg imei conn (write _ _) g h = absurd h
  perform-Publishes w reg imei conn (disconnect_device _) g h = absurd h

  perform_all-Publishes :
      (w : World P) (reg : Bool) (imei : Bytes) (conn : ℕ) (os : List (Output P))
      (g : GatewayClient P)
      → All (Permitted P w reg imei conn) os
      → Publishes (IsAbout w reg imei) g (perform_all P (gateway_client P B) os g)
  unfolding perform_all
  perform_all-Publishes w reg imei conn [] g h = Publishes-none g
  perform_all-Publishes w reg imei conn (o ∷ os) g h =
      Publishes-trans (perform-Publishes w reg imei conn o g h.0)
        (perform_all-Publishes w reg imei conn os _ h.1)

  perform_all-append :
      (os rs : List (Output P)) (g : GatewayClient P)
      → perform_all P (gateway_client P B) (os ++ rs) g
        ≡ perform_all P (gateway_client P B) rs (perform_all P (gateway_client P B) os g)
  unfolding perform_all
  perform_all-append [] rs g = refl
  perform_all-append (o ∷ os) rs g = perform_all-append os rs _

  -- A reply to the device is nothing that the client is asked for.
  perform_all-reply :
      (w : World P) (c : Conn) (s : Server P) (f : Frame) (g : GatewayClient P)
      → perform_all P (gateway_client P B) (reply P w c s f) g ≡ g
  unfolding perform_all perform
  perform_all-reply w c s f g = ground arith

  -- What handling a frame asks of ThingsBoard is carried out by the gateway client, in order. Every
  -- message that this publishes names the IMEI of the connection, and there is one only if this IMEI
  -- is not empty and the registry is off or knows it; nothing else of the client changes.
  pub handle_frame-Publishes :
      (w : World P) (c : Conn) (s : Server P) (f : Frame) (g : GatewayClient P)
      → (os : List (Output P)) × ((handle_frame P w f c s).1.log ≡ s.log ++ os)
        × Publishes (IsAbout w s.reg_enabled c.imei) g (perform_all P (gateway_client P B) os g)
  handle_frame-Publishes w c s f g =
      let l = handle_frame-Logs P w c s f in
      (
        l.before ++ reply P w c s f,
        l.logs,
        rw (perform_all-append l.before (reply P w c s f) g, perform_all-reply w c s f)
            (perform_all-Publishes w s.reg_enabled c.imei c.id l.before g l.kind),
      )
