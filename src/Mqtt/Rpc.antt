-- ===== src/Mqtt/Rpc.antt =====
-- An RPC message from ThingsBoard, over the command handler and the server.
use zx909_gw.Prelude.{
  ◌≡◌, ◌≢◌, refl, inl, inr, ◌⊎◌, Bool, true, false, [], ◌∷◌, ◌++◌, Option, none, some,
  if◌then◌else◌,
}
use zx909_gw.Bytes.{Bytes}
use zx909_gw.Platform.{Platform}
use zx909_gw.Server.State.{Server, World}
use zx909_gw.Server.Uplink.{is_empty}
use zx909_gw.Command.{Json, RpcError, execute_rpc}
use zx909_gw.Command.Delivery.{server_lookup, IsWritten, execute_rpc-IsWritten}
use zx909_gw.Mqtt.{
  RpcRequest, RpcResult, success, RpcExecutor, Broker, GatewayClient, response, gateway_rpc,
  publish_message, answer, respond, on_rpc,
}

-- The text of an error, if there is one.
abbrev pub text_of : (RpcError → Bytes) → Option RpcError → Option Bytes
text_of text none = none
text_of text (some e) = some (text e)

-- `command.Handler` as the executor, over the server.
abbrev pub handler_executor : (P : Platform) → Json → (RpcError → Bytes) → World P → RpcExecutor
handler_executor P J text w = record {
  State = Server P;
  execute = λ imei method params s. (
    text_of text (execute_rpc J (server_lookup P w) imei method params s).0,
    (execute_rpc J (server_lookup P w) imei method params s).1,
  );
}

module _ (P : Platform) (B : Broker P) (J : Json) (text : RpcError → Bytes) (w : World P) where
  abbrev E : RpcExecutor
  E = handler_executor P J text w

  -- A request was answered: with one message that carries its device and its id, if it can be
  -- marshalled; the server is as it was, or has written one order to the current session of the device,
  -- which it has if the answer is a success.
  pub record IsAnswered (r : RpcRequest) (g g' : GatewayClient P) (s s' : Server P) : Type 0 where
    pub result : RpcResult
    pub answered : g' ≡ (
        if B.marshals (response r.device r.id result)
        then record g {
          published =
              g.published
              ++ (record {
                topic = gateway_rpc;
                qos = g.qos;
                retained = false;
                payload = response r.device r.id result;
              }
                  ∷ []);
        }
        else g)
    pub served : IsWritten P r.device s s' ⊎ ((s' ≡ s) × (result ≢ success))

  answer-served :
      (r : RpcRequest) (has_rpc : Bool) (s : Server P)
      → is_empty r.method ≡ false
      → IsWritten P r.device s (answer P B E r has_rpc s).1
        ⊎ (((answer P B E r has_rpc s).1 ≡ s) × ((answer P B E r has_rpc s).0 ≢ success))
  unfolding answer
  answer-served r false s named = inr (refl, λ e. cc)
  answer-served r true s named =
      rw named (elim (execute_rpc-IsWritten P J w r.device r.method r.params s) [
        | inl (e, x) ↦ inr (rw x (refl, λ h. cc))
        | inr written ↦ inl written
      ])

  respond-answered :
      (r : RpcRequest) (result : RpcResult) (g : GatewayClient P)
      → respond P B E (response r.device r.id result) g ≡ (
          if B.marshals (response r.device r.id result)
          then record g {
            published =
                g.published
                ++ (record {
                  topic = gateway_rpc;
                  qos = g.qos;
                  retained = false;
                  payload = response r.device r.id result;
                }
                    ∷ []);
          }
          else g)
  unfolding respond publish_message
  respond-answered r result g = refl

  pub on_rpc-answer :
      (r : RpcRequest) (g : GatewayClient P) (s : Server P)
      → is_empty r.device ≡ false
      → is_empty r.method ≡ false
      → on_rpc P B E (some r) g s ≡ (
        respond P B E (response r.device r.id (answer P B E r g.has_rpc s).0) g,
        (answer P B E r g.has_rpc s).1,
      )
  unfolding on_rpc
  on_rpc-answer r g s device method = rw (device, method) refl

  -- A request that names a device and a method is answered once, under its device and its id, with
  -- the QoS of the client and not retained, unless the answer cannot be marshalled, which leaves the
  -- client as it is. The server either has written exactly one order, to the current session of the
  -- device, or is unchanged; it is unchanged only under an answer that reports a failure.
  pub on_rpc-IsAnswered :
      (r : RpcRequest) (g : GatewayClient P) (s : Server P)
      → is_empty r.device ≡ false
      → is_empty r.method ≡ false
      → IsAnswered r g (on_rpc P B E (some r) g s).0 s (on_rpc P B E (some r) g s).1
  on_rpc-IsAnswered r g s device method = rw (on_rpc-answer r g s device method) (record {
    result = (answer P B E r g.has_rpc s).0;
    answered = respond-answered r (answer P B E r g.has_rpc s).0 g;
    served = answer-served r g.has_rpc s method;
  })
