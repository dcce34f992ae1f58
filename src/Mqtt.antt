-- ===== src/Mqtt.antt =====
-- internal/mqtt: the interface of the uplink (client.go), its two implementations, and the answers
-- to RPC messages (client.go, rpc.go, mock_client.go). A payload is the value that is marshalled.
pub mod Uplink
pub mod Rpc
pub mod Tests
use zx909_gw.Prelude.{
  ℕ, Bool, true, false, not, ◌||◌, List, [], ◌∷◌, ◌++◌, Option, none, some, if◌then◌else◌,
}
use zx909_gw.Prelude.Int.{ℤ}
use zx909_gw.Bytes.{Bytes}
use zx909_gw.Platform.{Platform}
use zx909_gw.Server.State.{
  Output, Telemetry, write, close, connect_device, disconnect_device, publish_telemetry,
}
use zx909_gw.Server.Uplink.{is_empty}

pub data Topic : Type 0 where
  gateway_connect gateway_disconnect gateway_telemetry gateway_rpc : Topic

-- `GatewayRPCRequest`.
pub record RpcRequest : Type 0 where
  pub device : Bytes
  pub id : ℤ
  pub method : Bytes
  pub params : Bytes

-- The errors that `onRPC` words itself, and the text of another error.
pub data RpcFailure : Type 0 where
  no_handler empty_method : RpcFailure
  failed : Bytes → RpcFailure

-- The `data` of a `GatewayRPCResponse`.
pub data RpcResult : Type 0 where
  success : RpcResult
  failure : RpcFailure → RpcResult

-- `RPCExecutor`: the text of the error, if any, and the new state.
pub record RpcExecutor : Type 1 where
  pub State : Type 0
  pub execute : Bytes → Bytes → Bytes → State → Option Bytes × State

module _ (P : Platform) where
  open P use {Time}

  -- `Client`, without the connection to the broker; `false` stands for an error.
  pub record Client : Type 1 where
    pub State : Type 0
    pub connect : Bytes → State → Bool × State
    pub disconnect : Bytes → State → Bool × State
    pub telemetry : Bytes → Time → Telemetry P → State → Bool × State

  pub data Payload : Type 0 where
    connects : Bytes → Bytes → Payload
    disconnects : Bytes → Payload
    sample : Bytes → ℤ → Telemetry P → Payload
    response : Bytes → ℤ → RpcResult → Payload

  pub record Message : Type 0 where
    pub topic : Topic
    pub qos : ℕ
    pub retained : Bool
    pub payload : Payload

  -- What `GatewayClient` takes from Paho, from encoding/json and from the time package: whether a
  -- publication succeeds, whether a value can be marshalled, and `t.UnixMilli()`.
  pub record Broker : Type 0 where
    pub accepts : Message → Bool
    pub marshals : Payload → Bool
    pub unix_milli : Time → ℤ

  -- `GatewayClient`: its configuration, whether it has an executor, and the messages published.
  pub record GatewayClient : Type 0 where
    pub profile : Bytes
    pub qos : ℕ
    pub has_rpc : Bool
    pub published : List Message

  module _ (B : Broker) where
    unfoldable pub publish_message : Topic → Payload → GatewayClient → Bool × GatewayClient
    publish_message topic payload g =
        let m : Message = record {
          topic = topic;
          qos = g.qos;
          retained = false;
          payload = payload;
        } in
        (B.accepts m, record g { published = g.published ++ (m ∷ []) })

    unfoldable pub gateway_connect_device : Bytes → GatewayClient → Bool × GatewayClient
    unfolding publish_message
    gateway_connect_device device g = publish_message gateway_connect (connects device g.profile) g

    unfoldable pub gateway_disconnect_device : Bytes → GatewayClient → Bool × GatewayClient
    unfolding publish_message
    gateway_disconnect_device device g = publish_message gateway_disconnect (disconnects device) g

    unfoldable pub gateway_publish_telemetry :
        Bytes → Time → Telemetry P → GatewayClient → Bool × GatewayClient
    unfolding publish_message
    gateway_publish_telemetry device ts values g =
        let entry = sample device (B.unix_milli ts) values in
        if B.marshals entry then publish_message gateway_telemetry entry g else (false, g)

    abbrev pub gateway_client : Client
    gateway_client = record {
      State = GatewayClient;
      connect = gateway_connect_device;
      disconnect = gateway_disconnect_device;
      telemetry = gateway_publish_telemetry;
    }

    module _ (E : RpcExecutor) where
      -- The switch of `onRPC`.
      unfoldable pub answer : RpcRequest → Bool → E.State → RpcResult × E.State
      answer r has_rpc s =
          let done = E.execute r.device r.method r.params s in
          if not has_rpc
          then (failure no_handler, s)
          else if is_empty r.method
          then (failure empty_method, s)
          else (elim done.0 [ none ↦ success | some text ↦ failure (failed text) ], done.1)

      -- A response that can be marshalled is published.
      unfoldable pub respond : Payload → GatewayClient → GatewayClient
      unfolding publish_message
      respond reply g = if B.marshals reply then (publish_message gateway_rpc reply g).1 else g

      -- `onRPC`; `none` is a message that is not a request.
      unfoldable pub on_rpc : Option RpcRequest → GatewayClient → E.State → GatewayClient × E.State
      unfolding answer respond
      on_rpc none g s = (g, s)
      on_rpc (some r) g s =
          let a = answer r g.has_rpc s in
          if is_empty r.device || is_empty r.method
          then (g, s)
          else (respond (response r.device r.id a.0) g, a.1)

  -- `MockClient` only logs.
  abbrev pub mock_client : Client
  mock_client = record {
    State = Unit {0};
    connect = λ device s. (true, s);
    disconnect = λ device s. (true, s);
    telemetry = λ device ts values s. (true, s);
  }

  -- What the client does for a request of the server's log.
  unfoldable pub perform : (C : Client) → Output P → C.State → Bool × C.State
  perform C (connect_device device) s = C.connect device s
  perform C (disconnect_device device) s = C.disconnect device s
  perform C (publish_telemetry device ts values) s = C.telemetry device ts values s
  perform C (write _ _) s = (true, s)
  perform C (close _) s = (true, s)

  unfoldable pub perform_all : (C : Client) → List (Output P) → C.State → C.State
  unfolding perform
  perform_all C [] s = s
  perform_all C (o ∷ os) s = perform_all C os (perform C o s).1
