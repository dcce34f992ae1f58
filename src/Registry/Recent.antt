-- ===== src/Registry/Recent.antt =====
-- How old a confirmation may be on which the registry client says that an IMEI is registered.
use zx909_gw.Prelude.{
  ℕ, ◌+◌, ◌≤◌, ◌≡◌, refl, ap, ◌∙◌, sym, inl, inr, ◌⊎◌, Bool, true, false, List, [], ◌∷◌, Option,
  none, some, arith, Bool-cases, Option-cases,
}
use zx909_gw.Prelude.Int.{ℤ}
use zx909_gw.Bytes.{Bytes}
use zx909_gw.Server.State.{same_string}
use zx909_gw.Server.Sessions.{same_string_iff}
use zx909_gw.Server.Uplink.{is_empty}
use zx909_gw.Registry.{
  CacheEntry, login_request, tracker_request, Client, Service, find_entry, put_entry, fresh_entry,
  cache_get, ttl_of, cache_set, invalidate_token, request, accept_token, login_answered,
  ensure_token, tracker_answered, look_up, fetch_again, fetch, fetched, is_registered,
}
use zx909_gw.Registry.Answers.{
  IsConfirmed, look_up-failed, look_up-tracker_answered, fetch-Confirms, is_registered-IsConfirmed,
}

-- The questions asked of the client so far, the last one first, each with the service at that time.
abbrev pub Questions : Type 0
Questions = List (Service × Bytes)

-- The client after the questions.
abbrev pub asked : Questions → Client → Client
asked [] c = c
asked ((sv, imei) ∷ qs) c = (is_registered sv imei (asked qs c)).1

-- One of the questions was about the IMEI, was confirmed by the service, and is at most `ttl` old.
unfoldable pub IsRecent : ℕ → ℕ → Bytes → Questions → Type 0
IsRecent ttl now imei [] = ⊥
IsRecent ttl now imei ((sv, k) ∷ qs) =
    ((k ≡ imei) × IsConfirmed sv k × (now ≤ sv.later + ttl)) ⊎ IsRecent ttl now imei qs

-- What only `cache_set` changes.
abbrev pub kept : Client → List (Bytes × CacheEntry) × ℤ
kept c = (c.cache, c.positive_ttl)

module _ (sv : Service) where
  accept_token-kept : (t : Option Bytes) (c : Client) → kept (accept_token sv t c).1 ≡ kept c
  unfolding accept_token
  accept_token-kept none c = refl
  accept_token-kept (some t) c = elim (Bool-cases (is_empty t)) [
    | inl e ↦ rw e refl
    | inr e ↦ rw e refl
  ]

  pub login_answered-kept :
      (x : Option (ℕ × Bytes)) (c : Client) → kept (login_answered sv x c).1 ≡ kept c
  unfolding login_answered
  login_answered-kept none c = refl
  login_answered-kept (some (status, body)) c =
      ground (arith, accept_token-kept (sv.token_of body) c)

  ensure_token-kept : (k : ℕ) (c : Client) → kept (ensure_token sv k c).1 ≡ kept c
  unfolding ensure_token request
  ensure_token-kept k c = ground (arith, login_answered-kept (sv.login k) (request login_request c))

  tracker_answered-kept :
      (retry : Client → Option Bool × Client) (x : Option (ℕ × Bytes)) (c : Client)
      → kept (retry c).1 ≡ kept c
      → kept (tracker_answered sv retry x c).1 ≡ kept c
  unfolding tracker_answered
  tracker_answered-kept retry none c h = refl
  tracker_answered-kept retry (some (status, body)) c h = ground arith

  look_up-kept :
      (retry : Client → Option Bool × Client) (k : ℕ) (imei : Bytes) (c : Client)
      → ((c' : Client) → kept (retry c').1 ≡ kept c')
      → kept (look_up sv retry k imei c).1 ≡ kept c
  unfolding request
  look_up-kept retry k imei c h = elim (Option-cases (ensure_token sv k c).0) [
    | inl failed ↦ rw (look_up-failed sv retry k imei c failed) (ensure_token-kept k c)
    | inr (t, got) ↦
        let c' = request (tracker_request t imei) (ensure_token sv k c).1 in
        rw (look_up-tracker_answered sv retry k imei t c got)
          (tracker_answered-kept retry (sv.tracker k t imei) c' (h c') ∙ ensure_token-kept k c)
  ]

  fetch-kept : (imei : Bytes) (c : Client) → kept (fetch sv imei c).1 ≡ kept c
  unfolding fetch fetch_again invalidate_token
  fetch-kept imei c =
      look_up-kept (λ c'. fetch_again sv imei (invalidate_token c')) 0 imei c
        (λ c'. look_up-kept (λ c''. (none, c'')) 1 imei (invalidate_token c') (λ c''. refl))

-- A yes that the cache gives after an answer is put into it.
cache_get-cache_set-true :
    (now later : ℕ) (k imei : Bytes) (reg : Bool) (c : Client)
    → cache_get now imei (cache_set later k reg c) ≡ some true
    → ((k ≡ imei) × (reg ≡ true) × (now ≤ later + ttl_of reg c))
      ⊎ (cache_get now imei c ≡ some true)
unfolding cache_get cache_set find_entry put_entry fresh_entry
cache_get-cache_set-true now later k imei reg c e = elim (Bool-cases (same_string k imei)) [
  | inl same ↦ inl ((same_string_iff k imei).0 same, ground arith, ground arith)
  | inr other ↦ inr (ground arith)
]

-- Every yes in the cache is recent.
record IsBacked (ttl : ℕ) (qs : Questions) (c : Client) : Type 0 where
  lifetime : ttl_of true c ≡ ttl
  recent : (now : ℕ) (imei : Bytes) → cache_get now imei c ≡ some true → IsRecent ttl now imei qs

-- The lifetime of a yes and the cache rest on what only `cache_set` changes.
ttl_of-kept : (c c' : Client) → kept c' ≡ kept c → ttl_of true c' ≡ ttl_of true c
unfolding ttl_of
ttl_of-kept c c' e = let same = ap (λ r. r.1) e in rw same refl

cache_get-kept :
    (now : ℕ) (imei : Bytes) (c c' : Client)
    → kept c' ≡ kept c
    → cache_get now imei c' ≡ cache_get now imei c
unfolding cache_get
cache_get-kept now imei c c' e = ap (λ r. fresh_entry now (find_entry imei r.0)) e

module _ (ttl : ℕ) (qs : Questions) (sv : Service) (k : Bytes) where
  IsBacked-later : (c : Client) → IsBacked ttl qs c → IsBacked ttl ((sv, k) ∷ qs) c
  unfolding IsRecent
  IsBacked-later c h = record {
    lifetime = h.lifetime;
    recent = λ now imei e. inr (h.recent now imei e);
  }

  IsBacked-kept : (c c' : Client) → kept c' ≡ kept c → IsBacked ttl qs c → IsBacked ttl qs c'
  IsBacked-kept c c' e h = record {
    lifetime = ttl_of-kept c c' e ∙ h.lifetime;
    recent = λ now imei x. h.recent now imei (sym (cache_get-kept now imei c c' e) ∙ x);
  }

  cache_set-IsBacked :
      (reg : Bool) (c : Client)
      → (reg ≡ true → IsConfirmed sv k)
      → IsBacked ttl qs c
      → IsBacked ttl ((sv, k) ∷ qs) (cache_set sv.later k reg c)
  unfolding cache_set ttl_of IsRecent
  cache_set-IsBacked reg c vouched h = record {
    lifetime = h.lifetime;
    recent = λ now imei e. elim (cache_get-cache_set-true now sv.later k imei reg c e) [
      | inl (same, known, young) ↦
          inl (same, vouched known, omega (arith, young, h.lifetime, ap (λ b. ttl_of b c) known))
      | inr before ↦ inr (h.recent now imei before)
    ];
  }

  fetched-IsBacked :
      (r : Option Bool × Client)
      → (r.0 ≡ some true → IsConfirmed sv k)
      → IsBacked ttl qs r.1
      → IsBacked ttl ((sv, k) ∷ qs) (fetched sv k r).1
  unfolding fetched
  fetched-IsBacked (none, c) vouched h = IsBacked-later c h
  fetched-IsBacked (some reg, c) vouched h = cache_set-IsBacked reg c (λ e. vouched (ap some e)) h

  is_registered-IsBacked :
      (c : Client) → IsBacked ttl qs c → IsBacked ttl ((sv, k) ∷ qs) (is_registered sv k c).1
  unfolding is_registered
  is_registered-IsBacked c h = elim (Bool-cases (is_empty k)) [
    | inl empty ↦ rw (empty, is_registered) (IsBacked-later c h)
    | inr named ↦ elim (Option-cases (cache_get sv.now k c)) [
      | inr (reg, hit) ↦ rw (named, hit, is_registered) (IsBacked-later c h)
      | inl miss ↦
          let c' = (fetch sv k c).1 in
          let b = IsBacked-kept c c' (fetch-kept sv k c) h in
          rw (named, miss, is_registered)
            (fetched-IsBacked (fetch sv k c) (fetch-Confirms sv k c) b)
    ]
  ]

asked-IsBacked :
    (qs : Questions) (c : Client) → c.cache ≡ [] → IsBacked (ttl_of true c) qs (asked qs c)
unfolding cache_get find_entry fresh_entry
asked-IsBacked [] c fresh = record {
  lifetime = refl;
  recent = λ now imei e.
      let missed : cache_get now imei c ≡ none =
        ap (λ m. fresh_entry now (find_entry imei m)) fresh in
      absurd (cc);
}
asked-IsBacked ((sv, imei) ∷ qs) c fresh =
    is_registered-IsBacked (ttl_of true c) qs sv imei (asked qs c) (asked-IsBacked qs c fresh)

-- A client whose cache is empty at first is asked any questions, one after another. Every time it then
-- says that an IMEI is registered, the IMEI is not empty, and either the service has just answered so
-- with a status from 200 to 299, or it did at an earlier question about the same IMEI, and from the
-- end of that question to now no more time has passed than the lifetime of a yes: the configured one
-- if it is positive, else 30 minutes.
pub is_registered-IsRecent :
    (qs : Questions) (c : Client) (sv : Service) (imei : Bytes)
    → c.cache ≡ []
    → (is_registered sv imei (asked qs c)).0 ≡ true
    → (is_empty imei ≡ false) × (IsConfirmed sv imei ⊎ IsRecent (ttl_of true c) sv.now imei qs)
is_registered-IsRecent qs c sv imei fresh known =
    let (named, vouched) = is_registered-IsConfirmed sv imei (asked qs c) known in
    (
      named,
      elim vouched [
        | inl hit ↦ inr ((asked-IsBacked qs c fresh).recent sv.now imei hit)
        | inr confirmed ↦ inl confirmed
      ],
    )
