-- ===== src/Registry.antt =====
-- internal/registry/paapeli.go: the registry client, with its cache and its token. Times are
-- nanoseconds; HTTP and the decoding of JSON are given by a Service.
pub mod Answers
pub mod Recent
pub mod Calls
pub mod Requests
pub mod Tests
use zx909_gw.Prelude.{
  ℕ, ◌+◌, Bool, true, false, not, ◌&&◌, ◌||◌, List, [], ◌∷◌, ◌++◌, Option, none, some, ltb, leb,
  ◌==◌, if◌then◌else◌,
}
use zx909_gw.Prelude.Int.{ℤ, pos, ltb_ℤ, pos_part}
use zx909_gw.Bytes.{Bytes}
use zx909_gw.Server.State.{same_string}
use zx909_gw.Server.Uplink.{is_empty}

pub record CacheEntry : Type 0 where
  pub registered : Bool
  pub expires : ℕ

pub data Request : Type 0 where
  login_request : Request
  tracker_request : Bytes → Bytes → Request

-- `requests` are the HTTP requests made so far.
pub record Client : Type 0 where
  pub positive_ttl : ℤ
  pub negative_ttl : ℤ
  pub token : Bytes
  pub cache : List (Bytes × CacheEntry)
  pub requests : List Request

-- The clock at the two reads of it, and what the service answers to the first and to the second
-- attempt: no response, or a status and a body. `token_of` and `registered_of` decode a body.
pub record Service : Type 0 where
  pub now : ℕ
  pub later : ℕ
  pub login : ℕ → Option (ℕ × Bytes)
  pub tracker : ℕ → Bytes → Bytes → Option (ℕ × Bytes)
  pub token_of : Bytes → Option Bytes
  pub registered_of : Bytes → Option Bool

unfoldable pub find_entry : Bytes → List (Bytes × CacheEntry) → Option CacheEntry
unfolding same_string
find_entry imei [] = none
find_entry imei ((k, e) ∷ m) = if same_string k imei then some e else find_entry imei m

-- `p.cache[imei] = e`, where the first entry for a key counts.
unfoldable pub put_entry :
    Bytes → CacheEntry → List (Bytes × CacheEntry) → List (Bytes × CacheEntry)
put_entry imei e m = (imei, e) ∷ m

unfoldable pub fresh_entry : ℕ → Option CacheEntry → Option Bool
fresh_entry now none = none
fresh_entry now (some e) = if ltb e.expires now then none else some e.registered

unfoldable pub cache_get : ℕ → Bytes → Client → Option Bool
unfolding find_entry fresh_entry
cache_get now imei c = fresh_entry now (find_entry imei c.cache)

-- `ttl <= 0` falls back to thirty minutes or sixty seconds.
unfoldable pub ttl_of : Bool → Client → ℕ
ttl_of registered c =
    let ttl = if registered then c.positive_ttl else c.negative_ttl in
    if ltb_ℤ (pos 0) ttl then pos_part ttl else if registered then 1800000000000 else 60000000000

unfoldable pub cache_set : ℕ → Bytes → Bool → Client → Client
unfolding put_entry ttl_of
cache_set now imei registered c =
    let e : CacheEntry = record { registered = registered; expires = now + ttl_of registered c } in
    record c { cache = put_entry imei e c.cache }

unfoldable pub invalidate_token : Client → Client
invalidate_token c = record c { token = [] }

unfoldable pub request : Request → Client → Client
request r c = record c { requests = c.requests ++ (r ∷ []) }

-- `resp.StatusCode < 200 || resp.StatusCode >= 300`.
abbrev pub is_failure : ℕ → Bool
is_failure status = ltb status 200 || leb 300 status

module _ (sv : Service) where
  -- `none` stands for an error.
  unfoldable pub accept_token : Option Bytes → Client → Option Bytes × Client
  accept_token none c = (none, c)
  accept_token (some t) c = if is_empty t then (none, c) else (some t, record c { token = t })

  unfoldable pub login_answered : Option (ℕ × Bytes) → Client → Option Bytes × Client
  unfolding accept_token
  login_answered none c = (none, c)
  login_answered (some (status, body)) c =
      if is_failure status then (none, c) else accept_token (sv.token_of body) c

  unfoldable pub ensure_token : ℕ → Client → Option Bytes × Client
  unfolding login_answered request
  ensure_token attempt c =
      if not (is_empty c.token)
      then (some c.token, c)
      else login_answered (sv.login attempt) (request login_request c)

  -- What `fetch` makes of a response; `retry` is what it does on a first 401.
  unfoldable pub tracker_answered :
      (Client → Option Bool × Client) → Option (ℕ × Bytes) → Client → Option Bool × Client
  tracker_answered retry none c = (none, c)
  tracker_answered retry (some (status, body)) c =
      if status == 401
      then retry c
      else if status == 404
      then (some false, c)
      else if is_failure status
      then (none, c)
      else (sv.registered_of body, c)

  unfoldable pub look_up :
      (Client → Option Bool × Client) → ℕ → Bytes → Client → Option Bool × Client
  unfolding ensure_token tracker_answered request
  look_up retry attempt imei c =
      let r = ensure_token attempt c in
      elim r.0 [
        | none ↦ (none, r.1)
        | some t ↦
            tracker_answered retry (sv.tracker attempt t imei)
              (request (tracker_request t imei) r.1)
      ]

  -- `fetch` with `allowRetry` false: a 401 is an error like any other.
  unfoldable pub fetch_again : Bytes → Client → Option Bool × Client
  unfolding look_up
  fetch_again imei c = look_up (λ c'. (none, c')) 1 imei c

  -- `fetch` with `allowRetry` true.
  unfoldable pub fetch : Bytes → Client → Option Bool × Client
  unfolding fetch_again look_up invalidate_token
  fetch imei c = look_up (λ c'. fetch_again imei (invalidate_token c')) 0 imei c

  unfoldable pub fetched : Bytes → Option Bool × Client → Bool × Client
  unfolding cache_set
  fetched imei (none, c) = (false, c)
  fetched imei (some reg, c) = (reg, cache_set sv.later imei reg c)

  unfoldable pub is_registered : Bytes → Client → Bool × Client
  unfolding cache_get fetch fetched
  is_registered imei c = if is_empty imei then (false, c) else elim (cache_get sv.now imei c) [
    | some reg ↦ (reg, c)
    | none ↦ fetched imei (fetch imei c)
  ]
