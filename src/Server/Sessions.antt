-- ===== src/Server/Sessions.antt =====
-- The session map: what login, hang-up and `SendToDevice` do to it.
use zx909_gw.Prelude.{
  ℕ, ◌≡◌, ◌↔◌, refl, ◌∙◌, inl, inr, true, List, [], ◌∷◌, none, some, arith, if◌then◌else◌,
  Bool-cases,
}
use zx909_gw.Bytes.{Bytes}
use zx909_gw.Server.State.{same_string, find_session, put_session, delete_session}

pub same_string_iff : (a b : Bytes) → (same_string a b ≡ true) ↔ (a ≡ b)
unfolding same_string
same_string_iff [] [] = ground arith
same_string_iff (x ∷ a) (y ∷ b) = ground (arith, same_string_iff a b)
same_string_iff [] (y ∷ b) = ground arith
same_string_iff (x ∷ a) [] = ground arith

-- After an IMEI is put into the session map, the lookup of that IMEI gives the new session and the
-- lookup of any other gives what it gave before.
pub find_session-put_session :
    (imei k : Bytes) (p : ℕ) (m : List (Bytes × ℕ))
    → find_session k (put_session imei p m)
      ≡ (if same_string imei k then some p else find_session k m)
unfolding find_session put_session
find_session-put_session imei k p [] = refl
find_session-put_session imei k p ((j, q) ∷ m) = ground (
  arith,
  same_string_iff imei k,
  same_string_iff j k,
  same_string_iff j imei,
  find_session-put_session imei k p m,
)

-- No key stands twice in the map.
abbrev pub Fresh : Bytes → List (Bytes × ℕ) → Type 0
Fresh k m = find_session k m ≡ none

abbrev pub Keys : List (Bytes × ℕ) → Type 0
Keys [] = Unit {0}
Keys ((k, p) ∷ m) = Fresh k m × Keys m

pub put_session-Keys :
    (imei : Bytes) (p : ℕ) (m : List (Bytes × ℕ)) → Keys m → Keys (put_session imei p m)
unfolding put_session
put_session-Keys imei p [] h = (unfold find_session in refl, tt)
put_session-Keys imei p ((k, q) ∷ m) h = elim (Bool-cases (same_string k imei)) [
  | inl same ↦ rw same h
  | inr other ↦ rw other (
    find_session-put_session imei k p m
        ∙ ground (arith, same_string_iff imei k, same_string_iff k imei),
    put_session-Keys imei p m h.1,
  )
]

pub find_session-delete_session :
    (imei k : Bytes) (m : List (Bytes × ℕ))
    → Keys m
    → find_session k (delete_session imei m)
      ≡ (if same_string imei k then none else find_session k m)
unfolding find_session delete_session
find_session-delete_session imei k [] h = ground arith
find_session-delete_session imei k ((j, q) ∷ m) h = ground (
  arith,
  same_string_iff imei k,
  same_string_iff j k,
  same_string_iff j imei,
  find_session-delete_session imei k m h.1,
)

pub delete_session-Keys :
    (imei : Bytes) (m : List (Bytes × ℕ)) → Keys m → Keys (delete_session imei m)
unfolding delete_session
delete_session-Keys imei [] h = tt
delete_session-Keys imei ((k, q) ∷ m) h = elim (Bool-cases (same_string k imei)) [
  | inl same ↦ rw same h.1
  | inr other ↦ rw other (
    find_session-delete_session imei k m h.1 ∙ ground (arith, h.0),
    delete_session-Keys imei m h.1,
  )
]
