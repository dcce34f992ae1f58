-- ===== src/Debug/Rpc.antt =====
-- The debug REST interface against MQTT RPC and shared attributes.
use zx909_gw.Prelude.{
  ℕ, ◌≤◌, ◌<◌, ◌≡◌, refl, ap, ◌∙◌, sym, ◌⊎◌, List, true, false, [], Option, none, some, arith,
}
use zx909_gw.Prelude.Int.{pos}
use zx909_gw.Bytes.{Bytes}
use zx909_gw.Platform.{Platform}
use zx909_gw.Server.State.{Server, World, Session, write, emit, same_string, find_session, deref}
use zx909_gw.Server.Handle.{send_to_device}
use zx909_gw.Server.Uplink.{is_empty}
use zx909_gw.Command.{
  Json, RpcError, out_of_range, Value, to_int, reboot, shutdown, locate_now, set_location_interval,
  set_status_interval, is_outside, payload_of, interval_payload, deliver, unless_failed,
  execute_rpc, apply_shared_attributes,
}
use zx909_gw.Command.Packets.{
  encoded, uploads_every, execute_rpc-location, apply_shared_attributes-execute_rpc,
  build_upload_interval-encoded,
}
use zx909_gw.Command.Delivery.{server_lookup}
use zx909_gw.Mqtt.{
  RpcRequest, RpcResult, success, failure, Broker, GatewayClient, response, answer, respond, on_rpc,
}
use zx909_gw.Mqtt.{failed as failed_with}
use zx909_gw.Mqtt.Rpc.{handler_executor, text_of, on_rpc-answer}
use zx909_gw.Debug.{
  Marshal, Endpoint, reboot_device, shutdown_device, locate_device, interval, not_found, Body, done,
  sent, failed, is_nil, respond_with, command, set_interval, set_intervals, serve,
}

-- The methods that have an endpoint of their own.
pub data Action : Type 0 where
  rebooting shutting_down locating : Action

abbrev pub method_of : Action → Bytes
method_of rebooting = reboot
method_of shutting_down = shutdown
method_of locating = locate_now

abbrev pub endpoint_of : Action → Bytes → Endpoint
endpoint_of rebooting imei = reboot_device imei
endpoint_of shutting_down imei = shutdown_device imei
endpoint_of locating imei = locate_device imei

module _ (P : Platform) (J : Json) (w : World P) where
  -- These methods do not look at their parameters.
  execute_rpc-params :
      (a : Action) (imei params params' : Bytes) (s : Server P)
      → execute_rpc J (server_lookup P w) imei (method_of a) params s
        ≡ execute_rpc J (server_lookup P w) imei (method_of a) params' s
  unfolding execute_rpc payload_of same_string
  execute_rpc-params rebooting imei params params' s = refl
  execute_rpc-params shutting_down imei params params' s = refl
  execute_rpc-params locating imei params params' s = refl

  -- The answer to an RPC message with the outcome of a REST response.
  abbrev pub result_of : (RpcError → Bytes) → Body P → RpcResult
  result_of text (failed e) = failure (failed_with (text e))
  result_of text _ = success

  named : (a : Action) → is_empty (method_of a) ≡ false
  named rebooting = refl
  named shutting_down = refl
  named locating = refl

  module _ (M : Marshal) (B : Broker P) (text : RpcError → Bytes) where
    -- The answer to an RPC message, from what the command handler gives.
    abbrev outcome : Option RpcError × Server P → RpcResult × Server P
    outcome x = (elim (text_of text x.0) [ none ↦ success | some t ↦ failure (failed_with t) ], x.1)

    outcome-respond_with :
        (x : Option RpcError × Server P) (method imei : Bytes)
        → outcome x ≡ (result_of text (respond_with P x.0 (done imei method)).body, x.1)
    unfolding respond_with
    outcome-respond_with (none, s) method imei = refl
    outcome-respond_with (some e, s) method imei = refl

    outcome-serve :
        (a : Action) (imei : Bytes) (entries : List (Bytes × ℕ)) (s : Server P)
        → outcome (execute_rpc J (server_lookup P w) imei (method_of a) [] s) ≡ (
          result_of text (serve P J M w entries (endpoint_of a imei) s).0.body,
          (serve P J M w entries (endpoint_of a imei) s).1,
        )
    unfolding serve command
    outcome-serve rebooting imei entries s = outcome-respond_with _ reboot imei
    outcome-serve shutting_down imei entries s = outcome-respond_with _ shutdown imei
    outcome-serve locating imei entries s = outcome-respond_with _ locate_now imei

    answer-outcome :
        (r : RpcRequest) (s : Server P)
        → is_empty r.method ≡ false
        → answer P B (handler_executor P J text w) r true s
          ≡ outcome (execute_rpc J (server_lookup P w) r.device r.method r.params s)
    unfolding answer
    answer-outcome r s method = rw method refl

    -- For reboot, shutdown and locate, an RPC message with any parameters, received by a client that has
    -- the command handler, does to the server what the REST request for the same device does; its
    -- answer reports success where the REST response does, and the same error where it reports one.
    pub serve-on_rpc :
        (a : Action) (r : RpcRequest) (entries : List (Bytes × ℕ)) (g : GatewayClient P)
        (s : Server P)
        → r.method ≡ method_of a
        → is_empty r.device ≡ false
        → g.has_rpc ≡ true
        → (let rest = serve P J M w entries (endpoint_of a r.device) s in
            on_rpc P B (handler_executor P J text w) (some r) g s ≡ (
              respond P B
                  (handler_executor P J text w)
                  (response r.device r.id (result_of text rest.0.body))
                  g,
              rest.1,
            ))
    serve-on_rpc a r entries g s method device has_rpc =
        on_rpc-answer P B J text w r g s device (rw method (named a))
        ∙ ap (λ x. (respond P B (handler_executor P J text w) (response r.device r.id x.0) g, x.1))
            (ap (λ h. answer P B (handler_executor P J text w) r h s) has_rpc
              ∙ answer-outcome r s (rw method (named a))
              ∙ ap (λ q. outcome (execute_rpc J (server_lookup P w) r.device q r.params s)) method
              ∙ ap outcome (execute_rpc-params a r.device r.params [] s)
              ∙ outcome-serve a r.device entries s)

  -- If JSON keeps an interval, a REST request for a location interval of 10 to 7200 seconds and a status
  -- interval of 1 to 60 minutes does to the server what shared attributes with these values do, and
  -- reports the error that they end with, or that both were sent.
  pub interval-apply_shared_attributes :
      (M : Marshal) (entries : List (Bytes × ℕ)) (imei : Bytes) (v v' : Value J) (n m : ℕ)
      (s : Server P)
      → ((k : ℕ) → J.seconds (M.seconds k) ≡ some (pos k))
      → ((k : ℕ) → J.minutes (M.minutes k) ≡ some (pos k))
      → to_int J v ≡ some (pos n)
      → to_int J v' ≡ some (pos m)
      → 10 ≤ n
      → n ≤ 7200
      → 1 ≤ m
      → m ≤ 60
      → (let r = apply_shared_attributes J (server_lookup P w) imei (some v) (some v') s in
          serve P J M w entries
            (interval imei (some (record { location_seconds = some n; status_minutes = some m })))
            s
          ≡ (respond_with P r.0 (sent imei (some n) (some m)), r.1))
  unfolding serve set_intervals set_interval is_nil
  interval-apply_shared_attributes M entries imei v v' n m s js jm a b h1 h2 h3 h4 =
      ap (λ r. (respond_with P r.0 (sent imei (some n) (some m)), r.1))
        (sym (
          apply_shared_attributes-execute_rpc J (server_lookup P w) imei (M.seconds n) (M.minutes m)
            v v' (pos n) (pos m) s a b (js n) (jm m) (ground arith) (ground arith)))

  deliver_live :
      (imei packet : Bytes) (p : ℕ) (x : Session P) (s : Server P)
      → find_session imei s.sessions ≡ some p
      → deref P p s.heap ≡ some x
      → w.write_ok x.conn ≡ true
      → deliver J (server_lookup P w) imei packet s ≡ (none, emit P (write x.conn packet) s)
  unfolding deliver send_to_device
  deliver_live imei packet p x s found live works =
      rw (found, live, works, deliver, send_to_device) refl

  execute_rpc-location_sent :
      (imei params : Bytes) (n p : ℕ) (x : Session P) (s : Server P)
      → J.seconds params ≡ some (pos n)
      → 10 ≤ n
      → n ≤ 7200
      → find_session imei s.sessions ≡ some p
      → deref P p s.heap ≡ some x
      → w.write_ok x.conn ≡ true
      → execute_rpc J (server_lookup P w) imei set_location_interval params s
        ≡ (none, emit P (write x.conn (encoded (uploads_every n))) s)
  execute_rpc-location_sent imei params n p x s js h1 h2 found live works =
      execute_rpc-location J (server_lookup P w) imei params (pos n) s js (ground arith)
      ∙ ap (λ packet. deliver J (server_lookup P w) imei packet s)
          (build_upload_interval-encoded n h1 h2)
      ∙ deliver_live imei (encoded (uploads_every n)) p x s found live works

  execute_rpc-status_refused :
      (imei params : Bytes) (m : ℕ) (s : Server P)
      → J.minutes params ≡ some (pos m)
      → (m ≡ 0) ⊎ (60 < m)
      → execute_rpc J (server_lookup P w) imei set_status_interval params s ≡ (some out_of_range, s)
  unfolding same_string payload_of interval_payload execute_rpc
  execute_rpc-status_refused imei params m s jm outside =
      let refused : is_outside (pos 1) (pos 60) (pos m) ≡ true = ground arith in
      rw (jm, refused, execute_rpc)

  -- A REST request with a location interval in range and a status interval out of range, for a device
  -- whose connection takes the packet, is answered 404 with the range error alone, although the
  -- location interval has been sent to the device.
  pub interval_half_sent :
      (M : Marshal) (entries : List (Bytes × ℕ)) (imei : Bytes) (n m p : ℕ) (x : Session P)
      (s : Server P)
      → J.seconds (M.seconds n) ≡ some (pos n)
      → J.minutes (M.minutes m) ≡ some (pos m)
      → 10 ≤ n
      → n ≤ 7200
      → (m ≡ 0) ⊎ (60 < m)
      → find_session imei s.sessions ≡ some p
      → deref P p s.heap ≡ some x
      → w.write_ok x.conn ≡ true
      → serve P J M w entries
          (interval imei (some (record { location_seconds = some n; status_minutes = some m })))
          s
        ≡ (
          record { status = not_found; body = failed out_of_range },
          emit P (write x.conn (encoded (uploads_every n))) s,
        )
  unfolding serve set_intervals set_interval is_nil unless_failed respond_with
  interval_half_sent M entries imei n m p x s js jm h1 h2 h3 found live works =
      rw
        (
          execute_rpc-location_sent imei (M.seconds n) n p x s js h1 h2 found live works,
          execute_rpc-status_refused imei (M.minutes m) m
              (emit P (write x.conn (encoded (uploads_every n))) s) jm h3,
        )
        refl
