-- ===== src/Registry/Requests.antt =====
-- How many requests a question to the registry client costs.
use zx909_gw.Prelude.{
  ℕ, ◌+◌, ◌≤◌, ◌≡◌, refl, inl, inr, Bool, [], ◌∷◌, Option, none, some, arith, length, length-append,
  Bool-cases, Option-cases, if◌then◌else◌,
}
use zx909_gw.Bytes.{Bytes}
use zx909_gw.Server.Uplink.{is_empty}
use zx909_gw.Registry.{
  Client, Service, Request, login_request, tracker_request, cache_get, cache_set, invalidate_token,
  request, accept_token, login_answered, ensure_token, tracker_answered, look_up, fetch_again,
  fetch, fetched, is_registered,
}
use zx909_gw.Registry.Answers.{look_up-failed, look_up-tracker_answered}

abbrev cost : Client → ℕ
cost c = length c.requests

request-cost : (r : Request) (c : Client) → cost (request r c) ≡ cost c + 1
unfolding request
request-cost r c = length-append c.requests (r ∷ [])

module _ (sv : Service) where
  accept_token-cost : (t : Option Bytes) (c : Client) → cost (accept_token sv t c).1 ≡ cost c
  unfolding accept_token
  accept_token-cost none c = refl
  accept_token-cost (some t) c = ground arith

  login_answered-cost :
      (x : Option (ℕ × Bytes)) (c : Client) → cost (login_answered sv x c).1 ≡ cost c
  unfolding login_answered
  login_answered-cost none c = refl
  login_answered-cost (some (status, body)) c =
      ground (arith, accept_token-cost (sv.token_of body) c)

  ensure_token-cost : (k : ℕ) (c : Client) → cost (ensure_token sv k c).1 ≤ cost c + 1
  unfolding ensure_token
  ensure_token-cost k c = ground (
    arith,
    login_answered-cost (sv.login k) (request login_request c),
    request-cost login_request c,
  )

  tracker_answered-cost :
      (retry : Client → Option Bool × Client) (n : ℕ) (x : Option (ℕ × Bytes)) (c : Client)
      → cost (retry c).1 ≤ cost c + n
      → cost (tracker_answered sv retry x c).1 ≤ cost c + n
  unfolding tracker_answered
  tracker_answered-cost retry n none c h = omega arith
  tracker_answered-cost retry n (some (status, body)) c h = ground arith

  look_up-cost :
      (retry : Client → Option Bool × Client) (n k : ℕ) (imei : Bytes) (c : Client)
      → ((c' : Client) → cost (retry c').1 ≤ cost c' + n)
      → cost (look_up sv retry k imei c).1 ≤ cost c + 2 + n
  look_up-cost retry n k imei c h = elim (Option-cases (ensure_token sv k c).0) [
    | inl failed ↦
        rw (look_up-failed sv retry k imei c failed) (omega (arith, ensure_token-cost k c))
    | inr (t, got) ↦
        let c' = request (tracker_request t imei) (ensure_token sv k c).1 in
        rw (look_up-tracker_answered sv retry k imei t c got) (
          omega (
            arith,
            tracker_answered-cost retry n (sv.tracker k t imei) c' (h c'),
            request-cost (tracker_request t imei) (ensure_token sv k c).1,
            ensure_token-cost k c,
          ))
  ]

  fetch_again-cost :
      (imei : Bytes) (c : Client) → cost (fetch_again sv imei (invalidate_token c)).1 ≤ cost c + 2
  unfolding fetch_again invalidate_token
  fetch_again-cost imei c =
      omega
        (arith, look_up-cost (λ c'. (none, c')) 0 1 imei (invalidate_token c) (λ c'. omega arith))

  fetch-cost : (imei : Bytes) (c : Client) → cost (fetch sv imei c).1 ≤ cost c + 4
  unfolding fetch
  fetch-cost imei c = omega (
    arith,
    look_up-cost (λ c'. fetch_again sv imei (invalidate_token c')) 2 0 imei c
        (λ c'. fetch_again-cost imei c'),
  )

  fetched-cost : (imei : Bytes) (r : Option Bool × Client) → cost (fetched sv imei r).1 ≡ cost r.1
  unfolding fetched cache_set
  fetched-cost imei (none, c) = refl
  fetched-cost imei (some reg, c) = refl

  -- A question to the registry client makes at most four requests, whatever the service answers, and
  -- none if the IMEI is empty or the cache has a fresh answer.
  pub is_registered-cost :
      (imei : Bytes) (c : Client)
      → length (is_registered sv imei c).1.requests
        ≤ length c.requests
          + (if is_empty imei
              then 0
              else elim (cache_get sv.now imei c) [ none ↦ 4 | some reg ↦ 0 ])
  unfolding is_registered
  is_registered-cost imei c = elim (Bool-cases (is_empty imei)) [
    | inl empty ↦ rw empty (omega arith)
    | inr named ↦ rw named (elim (Option-cases (cache_get sv.now imei c)) [
      | inl miss ↦
          rw (miss, is_registered)
            (omega (arith, fetched-cost imei (fetch sv imei c), fetch-cost imei c))
      | inr (reg, hit) ↦ rw (hit, is_registered) (omega arith)
    ])
  ]
