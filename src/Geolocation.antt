-- ===== src/Geolocation.antt =====
-- internal/geolocation: the HTTP client (http_client.go) and its stand-in when it is off
-- (geolocation.go). HTTP and JSON are given by a Service.
pub mod Located
pub mod Tests
use zx909_gw.Prelude.{
  ℕ, Bool, true, false, not, ◌&&◌, ◌||◌, List, [], ◌∷◌, Option, none, some, ltb, map, if◌then◌else◌,
}
use zx909_gw.Prelude.Int.{ℤ, pos, ltb_ℤ}
use zx909_gw.Bytes.{Bytes}
use zx909_gw.Platform.{Platform}
use zx909_gw.Protocol.WifiLbs.{WifiAp, CellTower}
use zx909_gw.Server.State.{Location, World}
use zx909_gw.Server.Uplink.{is_empty}
use zx909_gw.Config.{GeolocationConfig}

-- `httpWifi` and `httpCell`.
pub record HttpWifi : Type 0 where
  pub mac : Bytes
  pub rssi : ℕ

pub record HttpCell : Type 0 where
  pub mcc : ℕ
  pub mnc : ℕ
  pub lac : ℕ
  pub cell_id : ℕ
  pub signal : ℕ

pub record HttpRequest : Type 0 where
  pub wifi : List HttpWifi
  pub cells : List HttpCell

unfoldable pub http_wifis : List WifiAp → List HttpWifi
http_wifis [] = []
http_wifis (w ∷ ws) = record { mac = w.mac; rssi = w.rssi } ∷ http_wifis ws

unfoldable pub http_cells : List CellTower → List HttpCell
http_cells [] = []
http_cells (c ∷ cs) =
    record { mcc = c.mcc; mnc = c.mnc; lac = c.lac; cell_id = c.cell_id; signal = c.signal }
    ∷ http_cells cs

unfoldable pub http_request_from : List WifiAp → List CellTower → HttpRequest
unfolding http_wifis http_cells
http_request_from aps cells = record { wifi = http_wifis aps; cells = http_cells cells }

-- `HTTPClient`.
pub record HttpClient : Type 0 where
  pub url : Bytes
  pub api_key : Bytes
  pub timeout : ℤ

pub data Client : Type 0 where
  disabled : Client
  enabled_client : HttpClient → Client

unfoldable pub is_enabled : Client → Bool
is_enabled disabled = false
is_enabled (enabled_client h) = true

-- `NewClient`; three seconds where the timeout is not positive.
unfoldable pub new_client : GeolocationConfig → Client
new_client cfg =
    if not cfg.enabled || is_empty cfg.url
    then disabled
    else enabled_client (record {
      url = cfg.url;
      api_key = cfg.api_key;
      timeout = if ltb_ℤ (pos 0) cfg.timeout then cfg.timeout else pos 3000000000;
    })

unfoldable pub no_wifi : List WifiAp → Bool
no_wifi [] = true
no_wifi (_ ∷ _) = false

unfoldable pub no_cells : List CellTower → Bool
no_cells [] = true
no_cells (_ ∷ _) = false

-- Whether the key is sent, as the `Authorization` header.
unfoldable pub authorization : HttpClient → Option Bytes
authorization h = if is_empty h.api_key then none else some h.api_key

pub data Failure : Type 0 where
  geolocation_disabled nothing_observed not_marshalled bad_url no_response unread_body bad_status
        not_decoded zero_coordinates :
      Failure

module _ (P : Platform) where
  open P use {ne_zero}

  -- `json.Marshal`, whether `http.NewRequestWithContext` accepts the URL, what `client.Do` gives for
  -- a URL, a timeout, a key and a body (a status, and the body, at most 1 MiB, if it is read), and `json.Unmarshal`.
  pub record Service : Type 0 where
    pub marshal : HttpRequest → Option Bytes
    pub is_url : Bytes → Bool
    pub do_request : Bytes → ℤ → Option Bytes → Bytes → Option (ℕ × Option Bytes)
    pub unmarshal : Bytes → Option (Location P)

  pub data Result : Type 0 where
    located : Location P → Result
    failed : Failure → Result

  module _ (N : Service) where
    unfoldable pub accept_location : Option (Location P) → Result
    accept_location none = failed not_decoded
    accept_location (some x) =
        if not (ne_zero x.latitude) && not (ne_zero x.longitude)
        then failed zero_coordinates
        else located x

    unfoldable pub accept_response : Option (ℕ × Option Bytes) → Result
    unfolding accept_location
    accept_response none = failed no_response
    accept_response (some (status, none)) = failed unread_body
    accept_response (some (status, some body)) =
        if ltb status 200 || not (ltb status 300)
        then failed bad_status
        else accept_location (N.unmarshal body)

    unfoldable pub post : HttpClient → Option Bytes → Result
    unfolding authorization accept_response
    post h none = failed not_marshalled
    post h (some body) =
        if not (N.is_url h.url)
        then failed bad_url
        else accept_response (N.do_request h.url h.timeout (authorization h) body)

    -- `Locate` of both clients.
    unfoldable pub client_locate : Client → List WifiAp → List CellTower → Result
    unfolding no_wifi no_cells http_request_from post
    client_locate disabled aps cells = failed geolocation_disabled
    client_locate (enabled_client h) aps cells =
        if no_wifi aps && no_cells cells
        then failed nothing_observed
        else post h (N.marshal (http_request_from aps cells))

    unfoldable pub location_of : Result → Option (Location P)
    location_of (located x) = some x
    location_of (failed e) = none

    -- A world whose geolocation service is reached by the client.
    abbrev pub located_world : Client → World P → World P
    located_world c w = record w { locate = λ aps cells. location_of (client_locate c aps cells) }
