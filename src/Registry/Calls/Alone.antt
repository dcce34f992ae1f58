-- ===== src/Registry/Calls/Alone.antt =====
-- A call that runs alone does what `is_registered` does.
use zx909_gw.Prelude.{
  ℕ, zero, suc, ◌≡◌, refl, ap, ◌∙◌, sym, inl, inr, Bool, true, false, Option, none, some, arith,
  if◌then◌else◌, Bool-cases, Option-cases,
}
use zx909_gw.Bytes.{Bytes}
use zx909_gw.Server.Uplink.{is_empty}
use zx909_gw.Registry.{
  Client, Service, tracker_request, cache_get, cache_set, invalidate_token, request, ensure_token,
  tracker_answered, look_up, fetch_again, fetch, fetched, is_registered,
}
use zx909_gw.Registry.Answers.{look_up-failed, look_up-tracker_answered}
use zx909_gw.Registry.Calls.{
  Pc, asks, fetches, has_token, answers, attempt_of, token_got, decoded, responded, advance, turns,
}

module _ (sv : Service) (imei : Bytes) where
  -- The call with the result of `fetch`, returned.
  abbrev finished : Option Bool × Client → Pc × Client
  finished r = (answers (fetched sv imei r).0 imei, (fetched sv imei r).1)

  turns-answers :
      (n : ℕ) (b : Bool) (c : Client) → turns n sv (answers b imei) c ≡ (answers b imei, c)
  unfolding turns advance
  turns-answers zero b c = refl
  turns-answers (suc n) b c = turns-answers n b c

  turns-decoded :
      (n : ℕ) (r : Option Bool) (c : Client) → turns (suc n) sv (decoded imei r) c ≡ finished (r, c)
  unfolding turns advance fetched
  turns-decoded n none c = turns-answers n false c
  turns-decoded n (some b) c = turns-answers n b (cache_set sv.later imei b c)

  -- Behind the response, where the retry of a call takes `n` more steps.
  turns-responded :
      (n : ℕ) (retry : Bool) (again : Client → Option Bool × Client) (x : Option (ℕ × Bytes))
      (c : Client)
      → ((c' : Client)
          → (if retry
              then turns (suc n) sv (fetches false imei) (invalidate_token c')
              else finished (none, c'))
            ≡ finished (again c'))
      → (let r = responded sv retry imei x c in turns (suc n) sv r.0 r.1)
        ≡ finished (tracker_answered sv again x c)
  unfolding responded tracker_answered fetched
  turns-responded n retry again none c h = turns-answers (suc n) false c
  turns-responded n true again (some (status, body)) c h = ground (
    arith,
    h c,
    turns-answers (suc n) false c,
    turns-decoded n (some false) c,
    turns-decoded n (sv.registered_of body) c,
  )
  turns-responded n false again (some (status, body)) c h = ground (
    arith,
    h c,
    turns-answers (suc n) false c,
    turns-decoded n (some false) c,
    turns-decoded n (sv.registered_of body) c,
  )

  -- A call at the start of `fetch`, where the retry takes `n` more steps.
  abbrev Retries : ℕ → Bool → (Client → Option Bool × Client) → Type 0
  Retries n retry again =
      (c' : Client)
      → (if retry
          then turns (suc n) sv (fetches false imei) (invalidate_token c')
          else finished (none, c'))
        ≡ finished (again c')

  turns-has_token :
      (n : ℕ) (retry : Bool) (again : Client → Option Bool × Client) (t : Bytes) (c c0 : Client)
      → Retries n retry again
      → ensure_token sv (attempt_of retry) c0 ≡ (some t, c)
      → turns (suc (suc n)) sv (has_token retry t imei) c
        ≡ finished (look_up sv again (attempt_of retry) imei c0)
  unfolding turns advance
  turns-has_token n retry again t c c0 h e =
      let c1 = request (tracker_request t imei) c in
      turns-responded n retry again (sv.tracker (attempt_of retry) t imei) c1 h
      ∙ ap
          (λ (r : Option Bytes × Client). finished (
            tracker_answered sv again (sv.tracker (attempt_of retry) t imei)
              (request (tracker_request t imei) r.1)))
          (sym e)
      ∙ ap finished
          (sym (look_up-tracker_answered sv again (attempt_of retry) imei t c0 (ap (λ r. r.0) e)))

  turns-token_got :
      (n : ℕ) (retry : Bool) (again : Client → Option Bool × Client) (r : Option Bytes × Client)
      (c0 : Client)
      → Retries n retry again
      → ensure_token sv (attempt_of retry) c0 ≡ r
      → (let l = token_got retry imei r in turns (suc (suc n)) sv l.0 l.1)
        ≡ finished (look_up sv again (attempt_of retry) imei c0)
  unfolding token_got fetched
  turns-token_got n retry again (some t, c) c0 h e = turns-has_token n retry again t c c0 h e
  turns-token_got n retry again (none, c) c0 h e =
      turns-answers (suc (suc n)) false c
      ∙ ap (λ (r : Option Bytes × Client). finished (none, r.1)) (sym e)
      ∙ ap finished (sym (look_up-failed sv again (attempt_of retry) imei c0 (ap (λ r. r.0) e)))

  turns-fetches :
      (n : ℕ) (retry : Bool) (again : Client → Option Bool × Client) (c : Client)
      → Retries n retry again
      → Retries (suc n) retry again
      → turns (suc (suc (suc (suc n)))) sv (fetches retry imei) c
        ≡ finished (look_up sv again (attempt_of retry) imei c)
  unfolding turns advance ensure_token
  turns-fetches n retry again c h h' = elim (Bool-cases (is_empty c.token)) [
    | inl none_yet ↦ rw none_yet (turns-token_got n retry again _ c h (rw none_yet refl))
    | inr ready ↦ rw ready (turns-has_token (suc n) retry again c.token c c h' (rw ready refl))
  ]

  turns-fetch_again :
      (m : ℕ) (c : Client)
      → turns (suc (suc (suc (suc m)))) sv (fetches false imei) c ≡ finished (fetch_again sv imei c)
  unfolding fetch_again
  turns-fetch_again m c = turns-fetches m false (λ c'. (none, c')) c (λ c'. refl) (λ c'. refl)

  turns-fetch : (c : Client) → turns 7 sv (fetches true imei) c ≡ finished (fetch sv imei c)
  unfolding fetch
  turns-fetch c =
      turns-fetches 3 true (λ c'. fetch_again sv imei (invalidate_token c')) c
        (λ c'. turns-fetch_again 0 (invalidate_token c'))
        (λ c'. turns-fetch_again 1 (invalidate_token c'))

  -- A call of `IsRegistered` that no other call interrupts takes at most eight steps, and gives the
  -- answer and leaves the client that `is_registered` does, whatever the service answers.
  pub turns-is_registered :
      (c : Client)
      → (let r = is_registered sv imei c in turns 8 sv (asks imei) c ≡ (answers r.0 imei, r.1))
  unfolding turns advance is_registered
  turns-is_registered c = elim (Bool-cases (is_empty imei)) [
    | inl empty ↦ rw empty (turns-answers 7 false c)
    | inr named ↦ elim (Option-cases (cache_get sv.now imei c)) [
      | inl miss ↦ rw (named, miss) (turns-fetch c)
      | inr (reg, hit) ↦ rw (named, hit) (turns-answers 7 reg c)
    ]
  ]
