-- ===== src/Debug.antt =====
-- internal/server/debug_api.go: the handlers of the debug REST interface, and `ListSessions` of
-- internal/server/server.go. Routing is net/http's; `Endpoint` has its result, and a decoded body.
pub mod Rpc
pub mod Listing
pub mod Tests
use zx909_gw.Prelude.{ℕ, Bool, true, false, ◌&&◌, List, [], ◌∷◌, Option, none, some, if◌then◌else◌}
use zx909_gw.Bytes.{Bytes}
use zx909_gw.Platform.{Platform}
use zx909_gw.Server.State.{Server, World, Session, deref}
use zx909_gw.Command.{
  Json, RpcError, reboot, shutdown, locate_now, set_location_interval, set_status_interval,
  unless_failed, execute_rpc,
}
use zx909_gw.Command.Delivery.{server_lookup}

-- `intervalReq`; `none` is a nil pointer.
pub record IntervalReq : Type 0 where
  pub location_seconds : Option ℕ
  pub status_minutes : Option ℕ

-- `json.Marshal` of a map with the one key `seconds` or `minutes`.
pub record Marshal : Type 0 where
  pub seconds : ℕ → Bytes
  pub minutes : ℕ → Bytes

pub data HttpStatus : Type 0 where
  ok bad_request not_found : HttpStatus

-- The requests that the handler serves; `interval none` is one whose body is not decoded.
pub data Endpoint : Type 0 where
  list_devices health : Endpoint
  reboot_device shutdown_device locate_device : Bytes → Endpoint
  interval : Bytes → Option IntervalReq → Endpoint

unfoldable pub is_nil : Option ℕ → Bool
is_nil none = true
is_nil (some n) = false

module _ (P : Platform) where
  open P use {Time}

  pub record SessionInfo : Type 0 where
    pub imei : Bytes
    pub remote : Bytes
    pub connected : Time
    pub last_seen : Time
    pub tb_connected : Bool

  abbrev pub info_of : Session P → SessionInfo
  info_of x = record {
    imei = x.imei;
    remote = x.remote;
    connected = x.connected;
    last_seen = x.last_seen;
    tb_connected = x.tb_connected;
  }

  -- `ListSessions`, given the entries of the map in the order of the `range` loop.
  unfoldable pub list_sessions : List (Bytes × ℕ) → Server P → List SessionInfo
  unfolding deref
  list_sessions [] s = []
  list_sessions ((k, p) ∷ entries) s =
      let rest = list_sessions entries s in
      elim (deref P p s.heap) [ none ↦ rest | some x ↦ info_of x ∷ rest ]

  -- The JSON objects that are written.
  pub data Body : Type 0 where
    devices : List SessionInfo → Body
    healthy : Time → Body
    done : Bytes → Bytes → Body
    sent : Bytes → Option ℕ → Option ℕ → Body
    failed : RpcError → Body
    invalid_json nothing_to_set : Body

  pub record Response : Type 0 where
    pub status : HttpStatus
    pub body : Body

  -- 404 for any error of the command handler, and 200 with `body` if there is none.
  unfoldable pub respond_with : Option RpcError → Body → Response
  respond_with none body = record { status = ok; body = body }
  respond_with (some e) body = record { status = not_found; body = failed e }

  module _ (J : Json) (M : Marshal) (w : World P) where
    -- `reboot`, `shutdown` and `locate`.
    unfoldable pub command : Bytes → Bytes → Server P → Response × Server P
    unfolding respond_with
    command method imei s =
        let r = execute_rpc J (server_lookup P w) imei method [] s in
        (respond_with r.0 (done imei method), r.1)

    -- One interval, if the request has it.
    unfoldable pub set_interval :
        Bytes → (ℕ → Bytes) → Bytes → Option ℕ → Server P → Option RpcError × Server P
    set_interval method marshal imei none s = (none, s)
    set_interval method marshal imei (some n) s =
        execute_rpc J (server_lookup P w) imei method (marshal n) s

    unfoldable pub set_intervals : Bytes → Option IntervalReq → Server P → Response × Server P
    unfolding respond_with is_nil set_interval unless_failed
    set_intervals imei none s = (record { status = bad_request; body = invalid_json }, s)
    set_intervals imei (some req) s =
        let r =
          unless_failed J (server_lookup P w)
            (set_interval set_location_interval M.seconds imei req.location_seconds s)
            (λ s'. set_interval set_status_interval M.minutes imei req.status_minutes s') in
        if is_nil req.location_seconds && is_nil req.status_minutes
        then (record { status = bad_request; body = nothing_to_set }, s)
        else (respond_with r.0 (sent imei req.location_seconds req.status_minutes), r.1)

    -- `entries` is the session map in the order of the `range` loop.
    unfoldable pub serve : List (Bytes × ℕ) → Endpoint → Server P → Response × Server P
    unfolding list_sessions command set_intervals
    serve entries list_devices s =
        (record { status = ok; body = devices (list_sessions entries s) }, s)
    serve entries health s = (record { status = ok; body = healthy w.now }, s)
    serve entries (reboot_device imei) s = command reboot imei s
    serve entries (shutdown_device imei) s = command shutdown imei s
    serve entries (locate_device imei) s = command locate_now imei s
    serve entries (interval imei req) s = set_intervals imei req s
