-- ===== src/Debug/Listing.antt =====
-- What `GET /devices` shows of the session map.
use mathlib.Core.Path.{subst}
use mathlib.Core.List.{Permᴰ}
use mathlib.Core.List.Permᴰ
use zx909_gw.Prelude.{
  ℕ, ◌≡◌, refl, sym, inl, inr, List, [], ◌∷◌, some, map, arith, Bool-cases, Option-cases,
}
use zx909_gw.Bytes.{Bytes}
use zx909_gw.Platform.{Platform}
use zx909_gw.Server.State.{Server, Session, same_string, find_session, deref}
use zx909_gw.Server.Sessions.{same_string_iff, Fresh, Keys}
use zx909_gw.Server.Keeps.{imei_at, IsWellFormed}
use zx909_gw.Server.Effects.{All, All-map}
use zx909_gw.Debug.{SessionInfo, info_of, list_sessions}

All-permuted {ℓ κ} :
    {A : Type ℓ} (Q : A → Type κ) {xs ys : List A} → Permᴰ xs ys → All Q ys → All Q xs
All-permuted Q Permᴰ.nil h = tt
All-permuted Q (Permᴰ.cons e p) h = (subst Q (sym e) h.0, All-permuted Q p h.1)
All-permuted Q (Permᴰ.swap a b) h = (subst Q (sym a) h.1.0, (subst Q (sym b) h.0, h.1.1))
All-permuted Q (Permᴰ.trans p q) h = All-permuted Q p (All-permuted Q q h)

-- The entry is the one that a lookup of its key finds.
abbrev Linked : List (Bytes × ℕ) → Bytes × ℕ → Type 0
Linked m e = find_session e.0 m ≡ some e.1

Linked-cons :
    (k : Bytes) (p : ℕ) (m : List (Bytes × ℕ)) (e : Bytes × ℕ)
    → Fresh k m
    → Linked m e
    → Linked ((k, p) ∷ m) e
unfolding find_session
Linked-cons k p m (i, q) fresh found = elim (Bool-cases (same_string k i)) [
  | inl same ↦ ground (arith, same_string_iff k i)
  | inr other ↦ rw other found
]

Keys-Linked : (m : List (Bytes × ℕ)) → Keys m → All (Linked m) m
unfolding find_session
Keys-Linked [] h = tt
Keys-Linked ((k, p) ∷ m) h = (
  ground (arith, same_string_iff k k),
  All-map (Linked m) (Linked ((k, p) ∷ m)) m (λ e. Linked-cons k p m e h.0) (Keys-Linked m h.1),
)

module _ (P : Platform) where
  -- The entry describes the session that the map has for its IMEI.
  pub record IsSnapshot (s : Server P) (i : SessionInfo P) : Type 0 where
    pub pointer : ℕ
    pub session : Session P
    pub is_current : find_session i.imei s.sessions ≡ some pointer
    pub is_live : deref P pointer s.heap ≡ some session
    pub shown : i ≡ info_of P session

  -- The list has each IMEI of the map once, and shows its session.
  pub record Lists (s : Server P) (infos : List (SessionInfo P)) : Type 0 where
    pub names : Permᴰ (map (λ i. i.imei) infos) (map (λ e. e.0) s.sessions)
    pub snapshots : All (IsSnapshot s) infos

  owned_session :
      (s : Server P) (k : Bytes) (p : ℕ)
      → imei_at P p s.heap ≡ some k
      → (x : Session P) × (deref P p s.heap ≡ some x) × (x.imei ≡ k)
  owned_session s k p h = elim (Option-cases (deref P p s.heap)) [
    | inl gone ↦ ground arith
    | inr (x, e) ↦ (x, e, ground arith)
  ]

  list_sessions-snapshots :
      (entries : List (Bytes × ℕ)) (s : Server P)
      → IsWellFormed P s
      → All (Linked s.sessions) entries
      → (map (λ i. i.imei) (list_sessions P entries s) ≡ map (λ e. e.0) entries)
        × All (IsSnapshot s) (list_sessions P entries s)
  unfolding list_sessions
  list_sessions-snapshots [] s v h = (refl, tt)
  list_sessions-snapshots ((k, p) ∷ entries) s v h =
      let (x, e, same) = owned_session s k p (v.owned k p h.0) in
      let rest = list_sessions-snapshots entries s v h.1 in
      rw (e, list_sessions, map)
        (
          (λ i. same i ∷ rest.0 i),
          (
            record {
              pointer = p;
              session = x;
              is_current = rw same h.0;
              is_live = e;
              shown = refl;
            },
            rest.1,
          ),
        )

  -- In whatever order the map is ranged over, a well-formed server lists each IMEI of its session map
  -- exactly once, with the data of the session that the map has for it.
  pub list_sessions-Lists :
      (entries : List (Bytes × ℕ)) (s : Server P)
      → IsWellFormed P s
      → Permᴰ entries s.sessions
      → Lists s (list_sessions P entries s)
  list_sessions-Lists entries s v order =
      let l =
        list_sessions-snapshots entries s v
          (All-permuted (Linked s.sessions) order (Keys-Linked s.sessions v.keys)) in
      record { names = rw l.0 (Permᴰ.map (λ e. e.0) order); snapshots = l.1 }
