-- ===== src/Registry/Answers.antt =====
-- When the registry client says that an IMEI is registered, and for how long it says so.
use zx909_gw.Prelude.{
  ℕ, ◌+◌, ◌≤◌, ◌<◌, ◌≡◌, refl, ap, ◌∙◌, sym, inl, inr, ◌⊎◌, Bool, true, false, Option, none, some,
  arith, Bool-cases, Option-cases, ◌==◌,
}
use zx909_gw.Bytes.{Bytes}
use zx909_gw.Server.Sessions.{same_string_iff}
use zx909_gw.Server.Uplink.{is_empty}
use zx909_gw.Registry.{
  tracker_request, Client, Service, find_entry, put_entry, fresh_entry, cache_get, ttl_of,
  cache_set, invalidate_token, request, ensure_token, tracker_answered, look_up, fetch_again, fetch,
  fetched, is_registered,
}

module _ (sv : Service) where
  -- The service has answered with success that the IMEI is registered.
  pub record IsConfirmed (imei : Bytes) : Type 0 where
    pub attempt : ℕ
    pub token : Bytes
    pub status : ℕ
    pub body : Bytes
    pub answer : sv.tracker attempt token imei ≡ some (status, body)
    pub success : (200 ≤ status) × (status < 300)
    pub decoded : sv.registered_of body ≡ some true

  -- A retry that only a confirmation makes say yes.
  abbrev Confirms : Bytes → (Client → Option Bool × Client) → Type 0
  Confirms imei retry = (c : Client) → (retry c).0 ≡ some true → IsConfirmed imei

  tracker_answered-Confirms :
      (retry : Client → Option Bool × Client) (attempt : ℕ) (t imei : Bytes)
      (x : Option (ℕ × Bytes)) (c : Client)
      → Confirms imei retry
      → sv.tracker attempt t imei ≡ x
      → (tracker_answered sv retry x c).0 ≡ some true
      → IsConfirmed imei
  unfolding tracker_answered
  tracker_answered-Confirms retry attempt t imei none c h a e = absurd (cc)
  tracker_answered-Confirms retry attempt t imei (some (status, body)) c h a e =
      elim (Bool-cases (status == 401)) [
        | inl unauthorized ↦ h c (ground arith)
        | inr m1 ↦ record {
          attempt = attempt;
          token = t;
          status = status;
          body = body;
          answer = a;
          success = (ground arith, ground arith);
          decoded = ground arith;
        }
      ]

  pub look_up-failed :
      (retry : Client → Option Bool × Client) (attempt : ℕ) (imei : Bytes) (c : Client)
      → (ensure_token sv attempt c).0 ≡ none
      → look_up sv retry attempt imei c ≡ (none, (ensure_token sv attempt c).1)
  unfolding look_up
  look_up-failed retry attempt imei c e = rw (e, look_up)

  pub look_up-tracker_answered :
      (retry : Client → Option Bool × Client) (attempt : ℕ) (imei t : Bytes) (c : Client)
      → (ensure_token sv attempt c).0 ≡ some t
      → look_up sv retry attempt imei c
        ≡ tracker_answered sv retry
            (sv.tracker attempt t imei)
            (request (tracker_request t imei) (ensure_token sv attempt c).1)
  unfolding look_up
  look_up-tracker_answered retry attempt imei t c e = rw (e, look_up)

  look_up-Confirms :
      (retry : Client → Option Bool × Client) (attempt : ℕ) (imei : Bytes)
      → Confirms imei retry
      → Confirms imei (look_up sv retry attempt imei)
  look_up-Confirms retry attempt imei h c e = elim (Option-cases (ensure_token sv attempt c).0) [
    | inl failed ↦ let stops = look_up-failed retry attempt imei c failed in absurd (cc)
    | inr (t, got) ↦
        tracker_answered-Confirms retry attempt t imei (sv.tracker attempt t imei)
          (request (tracker_request t imei) (ensure_token sv attempt c).1) h refl
          (ap (λ r. r.0) (sym (look_up-tracker_answered retry attempt imei t c got)) ∙ e)
  ]

  pub fetch-Confirms : (imei : Bytes) → Confirms imei (fetch sv imei)
  unfolding fetch fetch_again
  fetch-Confirms imei =
      look_up-Confirms (λ c'. fetch_again sv imei (invalidate_token c')) 0 imei
        (λ c' e.
          look_up-Confirms (λ c''. (none, c'')) 1 imei (λ c'' x. absurd (cc)) (invalidate_token c')
            e)

  fetched-true :
      (imei : Bytes) (r : Option Bool × Client) → (fetched sv imei r).0 ≡ true → r.0 ≡ some true
  unfolding fetched
  fetched-true imei (none, c) e = absurd (cc)
  fetched-true imei (some reg, c) e = ap some e

  -- The client says that an IMEI is registered only if the IMEI is not empty and either the cache has
  -- an entry for it that says so and has not expired, or the service has answered one of the two
  -- attempts with a status from 200 to 299 and a body that decodes to "registered". On every error
  -- it says no.
  pub is_registered-IsConfirmed :
      (imei : Bytes) (c : Client)
      → (is_registered sv imei c).0 ≡ true
      → (is_empty imei ≡ false) × ((cache_get sv.now imei c ≡ some true) ⊎ IsConfirmed imei)
  unfolding is_registered
  is_registered-IsConfirmed imei c e = elim (Bool-cases (is_empty imei)) [
    | inl empty ↦ absurd (ground arith)
    | inr named ↦ (
      named,
      elim (Option-cases (cache_get sv.now imei c)) [
        | inl miss ↦
            let same : is_registered sv imei c ≡ fetched sv imei (fetch sv imei c) =
              rw (named, miss, is_registered) in
            inr (fetch-Confirms imei c (fetched-true imei _ (ap (λ r. r.0) (sym same) ∙ e)))
        | inr (reg, hit) ↦
            let same : is_registered sv imei c ≡ (reg, c) = rw (named, hit, is_registered) in
            inl (hit ∙ ap some (ap (λ r. r.0) (sym same) ∙ e))
      ],
    )
  ]

-- The lookup in the cache right after an answer is put into it, before it expires.
cache_get-cache_set :
    (now later : ℕ) (imei : Bytes) (reg : Bool) (c : Client)
    → now ≤ later + ttl_of reg c
    → cache_get now imei (cache_set later imei reg c) ≡ some reg
unfolding cache_get cache_set find_entry put_entry fresh_entry
cache_get-cache_set now later imei reg c h = ground (arith, same_string_iff imei imei)

-- Where the cache has no fresh entry for an IMEI that is not empty and the service gives an answer,
-- the client returns it, and gives the same answer to a later question without any request, whatever
-- the service would then say, for as long as the answer lives: the configured time for a yes or a no
-- if it is positive, else 30 minutes or 60 seconds.
pub is_registered_twice :
    (sv sv' : Service) (imei : Bytes) (c c' : Client) (reg : Bool)
    → is_empty imei ≡ false
    → cache_get sv.now imei c ≡ none
    → fetch sv imei c ≡ (some reg, c')
    → sv'.now ≤ sv.later + ttl_of reg c'
    → (let r = is_registered sv imei c in (r.0 ≡ reg) × (is_registered sv' imei r.1 ≡ (reg, r.1)))
unfolding is_registered fetched
is_registered_twice sv sv' imei c c' reg named miss got fresh =
    let first : is_registered sv imei c ≡ (reg, cache_set sv.later imei reg c') =
      rw (named, miss, got, is_registered) in
    let kept = ap (λ r. r.1) first in
    let second : is_registered sv' imei (cache_set sv.later imei reg c')
        ≡ (reg, cache_set sv.later imei reg c') =
      rw (named, cache_get-cache_set sv'.now sv.later imei reg c' fresh, is_registered) in
    (ap (λ r. r.0) first, ap (is_registered sv' imei) kept ∙ second ∙ ap (λ x. (reg, x)) (sym kept))
