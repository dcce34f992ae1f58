-- ===== src/Registry/Calls.antt =====
-- internal/registry/paapeli.go: calls of `IsRegistered` from many goroutines, one section under the
-- mutex or one HTTP request at a time.
pub mod Alone
pub mod Safe
pub mod Tests
use zx909_gw.Prelude.{
  ℕ, zero, suc, ◌≡◌, Bool, true, false, not, ◌&&◌, Option, none, some, ◌==◌, if◌then◌else◌,
}
use zx909_gw.Bytes.{Bytes}
use zx909_gw.Server.Uplink.{is_empty}
use zx909_gw.Registry.{
  Client, Service, login_request, tracker_request, cache_get, cache_set, invalidate_token, request,
  is_failure, login_answered,
}

-- Where a call stands; the Boolean is `allowRetry`.
pub data Pc : Type 0 where
  idle : Pc
  asks : Bytes → Pc  -- at the start of `IsRegistered`
  fetches : Bool → Bytes → Pc  -- at the start of `fetch`
  logs_in : Bool → Bytes → Pc  -- at the start of `login`
  has_token : Bool → Bytes → Bytes → Pc  -- behind `ensureToken`, with the token
  learns : Bool → Bytes → Pc  -- at the start of `cacheSet`
  answers : Bool → Bytes → Pc  -- returned

abbrev pub attempt_of : Bool → ℕ
attempt_of true = 0
attempt_of false = 1

unfoldable pub token_got : Bool → Bytes → Option Bytes × Client → Pc × Client
token_got retry imei (none, c) = (answers false imei, c)
token_got retry imei (some t, c) = (has_token retry t imei, c)

unfoldable pub decoded : Bytes → Option Bool → Pc
decoded imei none = answers false imei
decoded imei (some registered) = learns registered imei

-- What `fetch` makes of a response.
unfoldable pub responded : Service → Bool → Bytes → Option (ℕ × Bytes) → Client → Pc × Client
unfolding decoded invalidate_token
responded sv retry imei none c = (answers false imei, c)
responded sv retry imei (some (status, body)) c =
    if status == 401 && retry
    then (fetches false imei, invalidate_token c)
    else if status == 404
    then (learns false imei, c)
    else if is_failure status
    then (answers false imei, c)
    else (decoded imei (sv.registered_of body), c)

unfoldable pub looked_up : Bytes → Option Bool → Pc
looked_up imei none = fetches true imei
looked_up imei (some registered) = answers registered imei

-- The next step of a call. The service, with its clock, is that of the moment.
unfoldable pub advance : Service → Pc → Client → Pc × Client
unfolding token_got responded looked_up request
advance sv idle c = (idle, c)
advance sv (asks imei) c =
    if is_empty imei then (answers false imei, c) else (looked_up imei (cache_get sv.now imei c), c)
advance sv (fetches retry imei) c =
    if not (is_empty c.token) then (has_token retry c.token imei, c) else (logs_in retry imei, c)
advance sv (logs_in retry imei) c =
    token_got retry imei (login_answered sv (sv.login (attempt_of retry)) (request login_request c))
advance sv (has_token retry t imei) c =
    responded sv retry imei (sv.tracker (attempt_of retry) t imei)
      (request (tracker_request t imei) c)
advance sv (learns registered imei) c =
    (answers registered imei, cache_set sv.later imei registered c)
advance sv (answers registered imei) c = (answers registered imei, c)

-- A call that runs alone.
unfoldable pub turns : ℕ → Service → Pc → Client → Pc × Client
turns zero sv p c = (p, c)
turns (suc n) sv p c = let r = advance sv p c in turns n sv r.0 r.1
