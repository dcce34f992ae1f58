-- ===== src/Server/Calls.antt =====
-- internal/server/server.go: publishLocation, publishTelemetry and maybeConnectTB on many goroutines, one
-- section under a mutex or one call of a client at a time.
pub mod Alone
pub mod System
pub mod Ready
pub mod Sections
pub mod Ordered
pub mod Vouched
pub mod Whole
pub mod Handlers
pub mod Atomic
pub mod Tests
use zx909_gw.Prelude.{ℕ, zero, suc, Bool, true, false, not, Option, none, some, if◌then◌else◌}
use zx909_gw.Bytes.{Bytes}
use zx909_gw.Platform.{Platform}
use zx909_gw.Server.State.{
  Server, World, Telemetry, connect_device, publish_telemetry, emit, find_session, is_tb_connected,
  mark_connected,
}
use zx909_gw.Server.Uplink.{is_empty, uplink_allowed}

module _ (P : Platform) where
  open P use {Time, is_zero}

  -- Where a goroutine stands. A call on the way to `PublishTelemetry` has its time and its values.
  pub data Pc : Type 0 where
    idle : Pc  -- in no call
    publishes : Bytes → Time → Telemetry P → Pc  -- at the start of `publishTelemetry`
    connects : Option ℕ → Bytes → Pc  -- at the start of `maybeConnectTB`
    looks_up : Bytes → Time → Telemetry P → Pc  -- behind `uplinkAllowed`, at `s.mu.RLock`
    checks : ℕ → Bytes → Time → Telemetry P → Pc  -- at `sess.tbConnectedLocked`
    asks : Option ℕ → Bytes → Option (Time × Telemetry P) → Pc  -- at `ConnectDevice`
    marks : ℕ → Bytes → Option (Time × Telemetry P) → Pc  -- at `sess.mu.Lock`
    sends : Bytes → Time → Telemetry P → Pc  -- at `PublishTelemetry`

  -- Behind a lookup in the session map.
  unfoldable pub looked_up : Bytes → Time → Telemetry P → Option ℕ → Pc
  looked_up imei ts values none = asks none imei (some (ts, values))
  looked_up imei ts values (some p) = checks p imei ts values

  -- `ensureTBConnected` has said yes, or `maybeConnectTB` is over.
  unfoldable pub connected : Bytes → Option (Time × Telemetry P) → Pc
  connected imei none = idle
  connected imei (some (ts, values)) = sends imei ts values

  -- `ConnectDevice` has succeeded.
  unfoldable pub asked : Option ℕ → Bytes → Option (Time × Telemetry P) → Pc
  unfolding connected
  asked none imei rest = connected imei rest
  asked (some p) imei rest = marks p imei rest

  unfoldable pub begins : World P → Bytes → Pc → Server P → Pc
  begins w imei p s = if is_empty imei then idle else if uplink_allowed P w imei s then p else idle

  -- The next step of a goroutine. The answers are those of the moment.
  unfoldable pub advance : World P → Pc → Server P → Pc × Server P
  unfolding begins looked_up connected asked emit
  advance w idle s = (idle, s)
  advance w (publishes imei ts values) s = (begins w imei (looks_up imei ts values) s, s)
  advance w (connects none imei) s = (idle, s)
  advance w (connects (some p) imei) s = (begins w imei (asks (some p) imei none) s, s)
  advance w (looks_up imei ts values) s =
      (looked_up imei ts values (find_session imei s.sessions), s)
  advance w (checks p imei ts values) s = (
    if is_tb_connected P (some p) s
        then sends imei ts values
        else asks (some p) imei (some (ts, values)),
    s,
  )
  advance w (asks p imei rest) s =
      (if w.connect_ok imei then asked p imei rest else idle, emit P (connect_device imei) s)
  advance w (marks p imei rest) s = (connected imei rest, mark_connected P p s)
  advance w (sends imei ts values) s =
      (idle, emit P (publish_telemetry imei (if is_zero ts then w.later else ts) values) s)

  -- A goroutine that runs alone.
  unfoldable pub turns : ℕ → World P → Pc → Server P → Pc × Server P
  turns zero w p s = (p, s)
  turns (suc n) w p s = let r = advance w p s in turns n w r.0 r.1
