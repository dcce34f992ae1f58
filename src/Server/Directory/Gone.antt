-- ===== src/Server/Directory/Gone.antt =====
-- A session that has left the directory does not come back.
use mathlib.Core.Path.{subst}
use zx909_gw.Prelude.{ℕ, ◌<◌, ◌≡◌, ◌≢◌, ◌∙◌, sym, inl, inr, [], ◌∷◌, none, some, arith, Bool-cases}
use zx909_gw.Bytes.{Bytes}
use zx909_gw.Platform.{Platform}
use zx909_gw.Server.State.{Server, same_string, find_session}
use zx909_gw.Server.Keeps.{IsWellFormed}
use zx909_gw.Server.WellFormed.Reach.{Reach, here, next, Step-IsWellFormed}
use zx909_gw.Server.Directory.{
  Directory, enter, leave, Action, nothing, logs_in, ends, has_session, act, directory, action_of,
  directory-act,
}

module _ (P : Platform) where
  -- No IMEI has session `p`.
  abbrev pub Gone : ℕ → Directory → Type 0
  Gone p d = (k : Bytes) → d.lookup k ≢ some p

  enter-Gone :
      (d : Directory) (imei : Bytes) (p : ℕ) → p < d.next → Gone p d → Gone p (enter imei d)
  enter-Gone d imei p given gone k e = elim (Bool-cases (same_string imei k)) [
    | inl same ↦ let q : some d.next ≡ some p = sym (rw same) ∙ e in ground arith
    | inr other ↦ gone k (sym (rw other) ∙ e)
  ]

  leave-Gone : (d : Directory) (imei : Bytes) (p : ℕ) → Gone p d → Gone p (leave imei d)
  leave-Gone d imei p gone k e = elim (Bool-cases (same_string imei k)) [
    | inl same ↦ let q : none ≡ some p = sym (rw same) ∙ e in cc
    | inr other ↦ gone k (sym (rw other) ∙ e)
  ]

  act-Gone :
      (a : Action) (d : Directory) (p : ℕ)
      → (p < d.next) × Gone p d
      → (p < (act a d).next) × Gone p (act a d)
  act-Gone nothing d p h = h
  act-Gone (logs_in imei) d p h = (omega arith, enter-Gone d imei p h.0 h.1)
  act-Gone (ends [] own) d p h = h
  act-Gone (ends (b ∷ bs) own) d p h = elim (Bool-cases (has_session (d.lookup (b ∷ bs)) own)) [
    | inl current ↦ rw current (h.0, leave-Gone d (b ∷ bs) p h.1)
    | inr stale ↦ rw stale h
  ]

  Reach-Gone :
      {s t : Server P} (p : ℕ)
      → Reach P s t
      → IsWellFormed P s
      → (p < s.next) × Gone p (directory P s)
      → IsWellFormed P t × (p < t.next) × Gone p (directory P t)
  Reach-Gone p here v h = (v, h.0, h.1)
  Reach-Gone p (next r st) v h =
      let (u, given, gone) = Reach-Gone p r v h in
      let moved =
        subst (λ d. (p < d.next) × Gone p d) (sym (directory-act P st u))
          (act-Gone (action_of P st) _ p (given, gone)) in
      (Step-IsWellFormed P st u, moved.0, moved.1)

  -- A session that was given out and that no IMEI has any more (the device hung up or logged in again)
  -- is never again the session of any IMEI, whatever steps a well-formed server takes.
  pub gone_for_good :
      {s t : Server P} (p : ℕ)
      → Reach P s t
      → IsWellFormed P s
      → p < s.next
      → ((k : Bytes) → find_session k s.sessions ≢ some p)
      → (k : Bytes) → find_session k t.sessions ≢ some p
  gone_for_good p r v given gone = (Reach-Gone p r v (given, gone)).2
