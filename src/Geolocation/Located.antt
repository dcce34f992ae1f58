-- ===== src/Geolocation/Located.antt =====
-- Which positions the geolocation client gives, and which of them the server publishes.
use mathlib.Core.Path.{subst}
use zx909_gw.Prelude.{
  ℕ, ◌≡◌, ◌≤◌, ◌<◌, refl, ◌∙◌, sym, ap, inl, inr, ◌⊎◌, true, false, not, ◌&&◌, ◌||◌, List, Option,
  none, some, arith, ltb, Bool-cases,
}
use zx909_gw.Bytes.{Bytes}
use zx909_gw.Platform.{Platform}
use zx909_gw.Protocol.WifiLbs.{WifiLbs, WifiAp, CellTower}
use zx909_gw.Server.State.{Server, World, Location, resolve_and_publish_lbs, lbs_wifi}
use zx909_gw.Server.Uplink.{publish, publish_located, run_task}
use zx909_gw.Geolocation.{
  HttpClient, Client, disabled, enabled_client, no_wifi, no_cells, authorization, http_request_from,
  Service, Result, located, failed, accept_location, accept_response, post, client_locate,
  location_of, located_world,
}

module _ (P : Platform) (N : Service P) where
  open P use {ne_zero}

  -- The service located the observations at `x`.
  pub record IsLocated (c : Client) (aps : List WifiAp) (cells : List CellTower) (x : Location P)
      : Type 0 where
    pub http : HttpClient
    pub is_client : c ≡ enabled_client http
    pub observed : no_wifi aps && no_cells cells ≡ false
    pub body : Bytes
    pub marshalled : N.marshal (http_request_from aps cells) ≡ some body
    pub is_url : N.is_url http.url ≡ true
    pub status : ℕ
    pub reply : Bytes
    pub answered :
        N.do_request http.url http.timeout (authorization http) body ≡ some (status, some reply)
    pub success : (200 ≤ status) × (status < 300)
    pub decoded : N.unmarshal reply ≡ some x
    pub off_origin : (ne_zero x.latitude ≡ true) ⊎ (ne_zero x.longitude ≡ true)

  transfer :
      (Q : Location P → Type 0) {y x : Location P}
      → ◌≡◌ {A = Result P} (located y) (located x)
      → Q y
      → Q x
  transfer Q {y} h q = subst Q (ap (λ (r : Result P). elim r [ located z ↦ z | failed e ↦ y ]) h) q

  accept_location-located :
      (d : Option (Location P)) (x : Location P)
      → accept_location P N d ≡ located x
      → (d ≡ some x) × ((ne_zero x.latitude ≡ true) ⊎ (ne_zero x.longitude ≡ true))
  unfolding accept_location
  accept_location-located none x h = cc
  accept_location-located (some y) x h =
      elim (Bool-cases (not (ne_zero y.latitude) && not (ne_zero y.longitude))) [
        | inl zero ↦ absurd (cc)
        | inr far ↦
            transfer
              (λ z.
                (some y ≡ some z) × ((ne_zero z.latitude ≡ true) ⊎ (ne_zero z.longitude ≡ true)))
              (sym (rw far) ∙ h) (refl, ground arith)
      ]

  accept_response-located :
      (a : Option (ℕ × Option Bytes)) (x : Location P)
      → accept_response P N a ≡ located x
      → (status : ℕ) × (reply : Bytes) × (a ≡ some (status, some reply))
        × ((200 ≤ status) × (status < 300))
        × (N.unmarshal reply ≡ some x)
        × ((ne_zero x.latitude ≡ true) ⊎ (ne_zero x.longitude ≡ true))
  unfolding accept_response
  accept_response-located none x h = absurd (cc)
  accept_response-located (some (status, none)) x h = absurd (cc)
  accept_response-located (some (status, some reply)) x h =
      elim (Bool-cases (ltb status 200 || not (ltb status 300))) [
        | inl bad ↦ absurd (cc)
        | inr good ↦
            let d = accept_location-located (N.unmarshal reply) x (sym (rw good) ∙ h) in
            (status, reply, refl, (ground arith, ground arith), d.0, d.1)
      ]

  post-located :
      (http : HttpClient) (m : Option Bytes) (x : Location P)
      → post P N http m ≡ located x
      → (body : Bytes) × (m ≡ some body)
        × (N.is_url http.url ≡ true)
        × (accept_response P N (N.do_request http.url http.timeout (authorization http) body)
            ≡ located x)
  unfolding post
  post-located http none x h = absurd (cc)
  post-located http (some body) x h = elim (Bool-cases (N.is_url http.url)) [
    | inl fine ↦ (body, refl, fine, sym (rw fine) ∙ h)
    | inr bad ↦ absurd (cc)
  ]

  -- The client gives a position only if it is not disabled, there is something observed, and the
  -- service has answered the POST of the observations with a status from 200 to 299 and a body that
  -- decodes to this position, which is not zero in both coordinates.
  client_locate-IsLocated :
      (c : Client) (aps : List WifiAp) (cells : List CellTower) (x : Location P)
      → client_locate P N c aps cells ≡ located x
      → IsLocated c aps cells x
  unfolding client_locate post
  client_locate-IsLocated disabled aps cells x h = absurd (cc)
  client_locate-IsLocated (enabled_client http) aps cells x h =
      elim (Bool-cases (no_wifi aps && no_cells cells)) [
        | inl nothing ↦ absurd (cc)
        | inr seen ↦
            let (body, marshalled, fine, accepted) =
              post-located http (N.marshal (http_request_from aps cells)) x (sym (rw seen) ∙ h) in
            let (status, reply, answered, success, decoded, far) =
              accept_response-located _ x accepted in
            record {
              http = http;
              is_client = refl;
              observed = seen;
              body = body;
              marshalled = marshalled;
              is_url = fine;
              status = status;
              reply = reply;
              answered = answered;
              success = success;
              decoded = decoded;
              off_origin = far;
            }
      ]

  -- With the geolocation client as the service, resolving an observation either leaves the server as
  -- it is or publishes, under the IMEI and the time of the packet, a position that the client was
  -- given: there was something observed, and the service answered the POST of the observations with a
  -- status from 200 to 299 and a body that decodes to this position, not zero in both coordinates.
  pub run_task-IsLocated :
      (c : Client) (w : World P) (imei : Bytes) (wl : WifiLbs P) (s : Server P)
      → (let t = run_task P (located_world P N c w) (resolve_and_publish_lbs imei wl) s in
          (t ≡ s)
          ⊎ ((x : Location P) × IsLocated c wl.wifi wl.cells x
              × (t
                  ≡ publish P
                      (located_world P N c w)
                      imei
                      wl.time
                      (lbs_wifi x.latitude x.longitude)
                      s)))
  unfolding run_task publish_located location_of
  run_task-IsLocated c w imei wl s = by_result (client_locate P N c wl.wifi wl.cells) refl
    where
      by_result :
          (r : Result P)
          → client_locate P N c wl.wifi wl.cells ≡ r
          → (let t = publish_located P (located_world P N c w) imei wl (location_of P N r) s in
              (t ≡ s)
              ⊎ ((x : Location P) × IsLocated c wl.wifi wl.cells x
                  × (t
                      ≡ publish P
                          (located_world P N c w)
                          imei
                          wl.time
                          (lbs_wifi x.latitude x.longitude)
                          s)))
      by_result (located x) e = inr (x, client_locate-IsLocated c wl.wifi wl.cells x e, refl)
      by_result (failed why) e = inl refl
