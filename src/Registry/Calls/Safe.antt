-- ===== src/Registry/Calls/Safe.antt =====
-- Many calls of the registry client at once.
use mathlib.Core.Path.{subst}
use zx909_gw.Prelude.{
  update, ℕ, ◌≡◌, refl, ap, ◌∙◌, sym, inl, inr, Bool, true, false, [], Option, none, some, arith,
  ◌==◌, ◌&&◌, ltb, Bool-cases,
}
use zx909_gw.Bytes.{Bytes}
use zx909_gw.Server.State.{same_string}
use zx909_gw.Server.Sessions.{same_string_iff}
use zx909_gw.Server.Uplink.{is_empty}
use zx909_gw.Registry.{
  CacheEntry, Client, Service, login_request, tracker_request, find_entry, put_entry, fresh_entry,
  cache_get, cache_set, request, is_failure, login_answered,
}
use zx909_gw.Registry.Answers.{IsConfirmed}
use zx909_gw.Registry.Recent.{login_answered-kept}
use zx909_gw.Registry.Calls.{
  Pc, idle, asks, fetches, logs_in, has_token, learns, answers, attempt_of, token_got, decoded,
  responded, looked_up, advance,
}

-- The client and its calls.
pub record System : Type 0 where
  pub client : Client
  pub pc : ℕ → Pc

module _ (Registered : Bytes → Type 0) where
  -- The service confirms only IMEIs that are registered.
  abbrev pub IsSound : Service → Type 0
  IsSound sv = (k : Bytes) → IsConfirmed sv k → Registered k

  -- A goroutine starts a call, or a call takes its next step.
  pub data Step (s : System) : System → Type 0 where
    begins : (i : ℕ) (imei : Bytes) → Step s (record s { pc = update s.pc i (asks imei) })
    steps :
        (i : ℕ) (sv : Service)
        → IsSound sv
        → Step s (record {
          client = (advance sv (s.pc i) s.client).1;
          pc = update s.pc i (advance sv (s.pc i) s.client).0;
        })

  pub data Reach (s : System) : System → Type 0 where
    here : Reach s s
    next : {t u : System} → Reach s t → Step t u → Reach s u

  abbrev pub Vouched : Bool → Bytes → Type 0
  Vouched true k = Registered k
  Vouched false k = Unit {0}

  -- A call that knows or has answered yes is about a registered IMEI.
  abbrev pub IsRight : Pc → Type 0
  IsRight (learns b k) = Vouched b k
  IsRight (answers b k) = Vouched b k
  IsRight _ = Unit {0}

  -- So is a yes in the cache.
  abbrev pub IsCacheRight : Client → Type 0
  IsCacheRight c =
      (k : Bytes) (e : CacheEntry) → find_entry k c.cache ≡ some e → Vouched e.registered k

  looked_up-IsRight :
      (now : ℕ) (k : Bytes) (x : Option CacheEntry)
      → ((e : CacheEntry) → x ≡ some e → Vouched e.registered k)
      → IsRight (looked_up k (fresh_entry now x))
  unfolding looked_up fresh_entry
  looked_up-IsRight now k none h = tt
  looked_up-IsRight now k (some e) h = elim (Bool-cases (ltb e.expires now)) [
    | inl late ↦ rw late tt
    | inr young ↦ rw young (h e refl)
  ]

  decoded-IsRight :
      (k : Bytes) (r : Option Bool) → (r ≡ some true → Registered k) → IsRight (decoded k r)
  unfolding decoded
  decoded-IsRight k none h = tt
  decoded-IsRight k (some true) h = h refl
  decoded-IsRight k (some false) h = tt

  responded-IsRight :
      (sv : Service) (retry : Bool) (t k : Bytes) (x : Option (ℕ × Bytes)) (c : Client)
      → IsSound sv
      → sv.tracker (attempt_of retry) t k ≡ x
      → IsRight (responded sv retry k x c).0
  unfolding responded
  responded-IsRight sv retry t k none c sound e = tt
  responded-IsRight sv retry t k (some (status, body)) c sound e =
      elim (Bool-cases (status == 401 && retry)) [
        | inl again ↦ rw again tt
        | inr once ↦ elim (Bool-cases (status == 404)) [
          | inl missing ↦ rw (once, missing) tt
          | inr known ↦ elim (Bool-cases (is_failure status)) [
            | inl failed ↦ rw (once, known, failed) tt
            | inr good ↦
                rw (once, known, good)
                  (decoded-IsRight k (sv.registered_of body) (λ d. sound k (record {
                    attempt = attempt_of retry;
                    token = t;
                    status = status;
                    body = body;
                    answer = e;
                    success = (ground arith, ground arith);
                    decoded = d;
                  })))
          ]
        ]
      ]

  token_got-IsRight :
      (retry : Bool) (k : Bytes) (r : Option Bytes × Client) → IsRight (token_got retry k r).0
  unfolding token_got
  token_got-IsRight retry k (none, c) = tt
  token_got-IsRight retry k (some t, c) = tt

  token_got-client :
      (retry : Bool) (k : Bytes) (r : Option Bytes × Client) → (token_got retry k r).1 ≡ r.1
  unfolding token_got
  token_got-client retry k (none, c) = refl
  token_got-client retry k (some t, c) = refl

  responded-cache :
      (sv : Service) (retry : Bool) (k : Bytes) (x : Option (ℕ × Bytes)) (c : Client)
      → (responded sv retry k x c).1.cache ≡ c.cache
  unfolding responded
  responded-cache sv retry k none c = refl
  responded-cache sv retry k (some (status, body)) c = ground arith

  IsCacheRight-same : (c c' : Client) → c'.cache ≡ c.cache → IsCacheRight c → IsCacheRight c'
  IsCacheRight-same c c' same h k e found = h k e (ap (find_entry k) (sym same) ∙ found)

  cache_set-IsCacheRight :
      (now : ℕ) (imei : Bytes) (b : Bool) (c : Client)
      → Vouched b imei
      → IsCacheRight c
      → IsCacheRight (cache_set now imei b c)
  unfolding cache_set put_entry find_entry
  cache_set-IsCacheRight now imei b c r h k e found = elim (Bool-cases (same_string imei k)) [
    | inl same ↦
        let known : b ≡ e.registered = ground arith in
        subst (λ a. Vouched a k) known (subst (Vouched b) ((same_string_iff imei k).0 same) r)
    | inr other ↦ h k e (ground arith)
  ]

  module _ (sv : Service) (sound : IsSound sv) where
    -- The cache changes only where a call has learnt an answer.
    advance-cache :
        (p : Pc) (c : Client) → IsRight p → IsCacheRight c → IsCacheRight (advance sv p c).1
    unfolding advance request
    advance-cache idle c r h = h
    advance-cache (asks imei) c r h = elim (Bool-cases (is_empty imei)) [
      | inl empty ↦ rw empty h
      | inr named ↦ rw named h
    ]
    advance-cache (fetches retry imei) c r h = elim (Bool-cases (is_empty c.token)) [
      | inl empty ↦ rw empty h
      | inr ready ↦ rw ready h
    ]
    advance-cache (logs_in retry imei) c r h =
        let asked = request login_request c in
        let answered = login_answered sv (sv.login (attempt_of retry)) asked in
        IsCacheRight-same c (token_got retry imei answered).1
          (ap (λ d. d.cache) (token_got-client retry imei answered)
            ∙ ap (λ x. x.0) (login_answered-kept sv (sv.login (attempt_of retry)) asked))
          h
    advance-cache (has_token retry t imei) c r h =
        let asked = request (tracker_request t imei) c in
        let x = sv.tracker (attempt_of retry) t imei in
        IsCacheRight-same c (responded sv retry imei x asked).1
          (responded-cache sv retry imei x asked) h
    advance-cache (learns b imei) c r h = cache_set-IsCacheRight sv.later imei b c r h
    advance-cache (answers b imei) c r h = h

    advance-IsRight :
        (p : Pc) (c : Client) → IsRight p → IsCacheRight c → IsRight (advance sv p c).0
    unfolding advance cache_get
    advance-IsRight idle c r h = tt
    advance-IsRight (asks imei) c r h = elim (Bool-cases (is_empty imei)) [
      | inl empty ↦ rw empty tt
      | inr named ↦ rw named (looked_up-IsRight sv.now imei (find_entry imei c.cache) (h imei))
    ]
    advance-IsRight (fetches retry imei) c r h = elim (Bool-cases (is_empty c.token)) [
      | inl empty ↦ rw empty tt
      | inr ready ↦ rw ready tt
    ]
    advance-IsRight (logs_in retry imei) c r h = token_got-IsRight retry imei _
    advance-IsRight (has_token retry t imei) c r h =
        responded-IsRight sv retry t imei (sv.tracker (attempt_of retry) t imei) _ sound refl
    advance-IsRight (learns b imei) c r h = r
    advance-IsRight (answers b imei) c r h = r

  -- Every call is right, and so is the cache.
  pub record AreRight (s : System) : Type 0 where
    pub calls : (i : ℕ) → IsRight (s.pc i)
    pub cached : IsCacheRight s.client

  update-IsRight :
      (pc : ℕ → Pc) (i : ℕ) (p : Pc)
      → ((j : ℕ) → IsRight (pc j))
      → IsRight p
      → (j : ℕ) → IsRight (update pc i p j)
  update-IsRight pc i p h r j = elim (Bool-cases (i == j)) [
    | inl same ↦ rw same r
    | inr other ↦ rw other (h j)
  ]

  Step-AreRight : {s t : System} → Step s t → AreRight s → AreRight t
  Step-AreRight {s} (begins i imei) h = record {
    calls = update-IsRight s.pc i (asks imei) h.calls tt;
    cached = h.cached;
  }
  Step-AreRight {s} (steps i sv sound) h = record {
    calls =
        update-IsRight s.pc i (advance sv (s.pc i) s.client).0 h.calls
          (advance-IsRight sv sound (s.pc i) s.client (h.calls i) h.cached);
    cached = advance-cache sv sound (s.pc i) s.client (h.calls i) h.cached;
  }

  Reach-steps : {s t : System} → Reach s t → AreRight s → AreRight t
  Reach-steps here h = h
  Reach-steps (next r st) h = Step-AreRight st (Reach-steps r h)

  -- Any number of calls on one client whose cache is empty at first, interleaved in any order between
  -- their critical sections and requests, each step with a service that confirms only registered
  -- IMEIs: every call that answers yes is about a registered IMEI, and so is every yes in the cache.
  pub Reach-AreRight :
      (c : Client) {t : System}
      → c.cache ≡ []
      → Reach (record { client = c; pc = λ i. idle }) t
      → AreRight t
  unfolding find_entry
  Reach-AreRight c empty r = Reach-steps r (record {
    calls = λ i. tt;
    cached = λ k e found.
        let nothing : find_entry k c.cache ≡ none = ap (find_entry k) empty in absurd (cc);
  })
