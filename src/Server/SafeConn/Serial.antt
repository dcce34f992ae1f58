-- ===== src/Server/SafeConn/Serial.antt =====
-- The writes of a connection do not mix.
use mathlib.Core.Path.{subst}
use zx909_gw.Prelude.{
  update, ℕ, ◌≡◌, refl, ap, ◌∙◌, sym, inl, inr, Bool, true, false, List, [], ◌∷◌, ◌++◌, Option,
  none, some, arith, ◌==◌, Bool-cases, ==_iff, append_assoc, append-nil,
}
use zx909_gw.Bytes.{Bytes}
use zx909_gw.Server.Effects.{All, All-append}
use zx909_gw.Server.SafeConn.{
  Written, SafeConn, Pc, idle, locks, holds, writes, wrote, shut, Move, calls, enters, arms, puts,
  returns, closes, leaves, leaves_shut, System, Step, pick, Reach, start, later,
}

-- Between `Lock` and `Unlock`.
abbrev pub critical : Pc → Bool
critical idle = false
critical (locks _) = false
critical _ = true

-- What the writes that have returned have put on the wire.
abbrev pub transmitted : List Written → Bytes
transmitted [] = []
transmitted (w ∷ ws) = w.put ++ transmitted ws

-- What a goroutine has put there in the call that it is in.
abbrev pub part : Pc → Bytes
part (writes _ _ put _) = put
part (wrote _ _ put _) = put
part _ = []

abbrev pub is_holder : Option ℕ → ℕ → Bool
is_holder none j = false
is_holder (some i) j = i == j

-- The payload of a write is what it has put and what is left, and the deadline is its own.
abbrev pub IsPiece : SafeConn → Pc → Type 0
IsPiece c (writes payload until put left) = (payload ≡ put ++ left) × (c.deadline ≡ until)
IsPiece c (wrote payload until put left) = (payload ≡ put ++ left) × (c.deadline ≡ until)
IsPiece c _ = Unit {0}

pub record IsAt (i : ℕ) (c : SafeConn) (p : Pc) : Type 0 where
  pub own : critical p ≡ is_holder c.mu i
  pub free : c.mu ≡ none → c.wire ≡ transmitted c.log
  pub mine : critical p ≡ true → c.wire ≡ transmitted c.log ++ part p
  pub piece : IsPiece c p

transmitted-append :
    (xs ys : List Written) → transmitted (xs ++ ys) ≡ transmitted xs ++ transmitted ys
transmitted-append [] ys = refl
transmitted-append (w ∷ xs) ys =
    ap (◌++◌ w.put) (transmitted-append xs ys)
    ∙ sym (append_assoc w.put (transmitted xs) (transmitted ys))

Move-IsAt : (i : ℕ) (c c' : SafeConn) (p p' : Pc) → Move i c p c' p' → IsAt i c p → IsAt i c' p'
Move-IsAt i c c' p p' (calls k) h = record {
  own = h.own;
  free = h.free;
  mine = λ e. absurd (cc);
  piece = tt;
}
Move-IsAt i c c' p p' (enters e) h = record {
  own = ground arith;
  free = λ x. absurd (cc);
  mine = λ x. h.free e ∙ sym (append-nil _);
  piece = tt;
}
Move-IsAt i c c' p p' (arms now) h = record {
  own = h.own;
  free = h.free;
  mine = h.mine;
  piece = (refl, refl);
}
Move-IsAt i c c' p p' (puts {put = put} xs ys e o) h = record {
  own = h.own;
  free = λ x. let held : true ≡ false = h.own ∙ ap (λ m. is_holder m i) x in absurd (cc);
  mine = λ x. ap (λ b. b ++ xs) (h.mine refl) ∙ append_assoc _ _ xs;
  piece = (h.piece.0 ∙ ap (λ b. put ++ b) e ∙ sym (append_assoc put xs ys), h.piece.1);
}
Move-IsAt i c c' p p' returns h = record {
  own = h.own;
  free = h.free;
  mine = h.mine;
  piece = h.piece;
}
Move-IsAt i c c' p p' closes h = record { own = h.own; free = h.free; mine = h.mine; piece = tt }
Move-IsAt i c c' p p' leaves h = record {
  own = refl;
  free = λ x.
      h.mine refl
      ∙ ap (λ b. transmitted c.log ++ b) (sym (append-nil _))
      ∙ sym (transmitted-append c.log _);
  mine = λ x. absurd (cc);
  piece = tt;
}
Move-IsAt i c c' p p' leaves_shut h = record {
  own = refl;
  free = λ x. h.mine refl ∙ append-nil _;
  mine = λ x. absurd (cc);
  piece = tt;
}

-- Only one goroutine is between `Lock` and `Unlock`.
pub IsAt-exclusive :
    (i j : ℕ) (c : SafeConn) (p q : Pc)
    → IsAt i c p
    → IsAt j c q
    → critical p ≡ true
    → critical q ≡ true
    → i ≡ j
IsAt-exclusive i j c p q h k x y = same_holder c.mu i j (sym h.own ∙ x) (sym k.own ∙ y)
  where
    same_holder : (m : Option ℕ) (a b : ℕ) → is_holder m a ≡ true → is_holder m b ≡ true → a ≡ b
    same_holder none a b e f = absurd (cc)
    same_holder (some n) a b e f = ground arith

-- Outside, a goroutine knows only whether the mutex is held.
outside-IsAt :
    (j : ℕ) (c : SafeConn) (q : Pc)
    → critical q ≡ false
    → is_holder c.mu j ≡ false
    → (c.mu ≡ none → c.wire ≡ transmitted c.log)
    → IsAt j c q
outside-IsAt j c idle e o free = record {
  own = sym o;
  free = free;
  mine = λ x. absurd (cc);
  piece = tt;
}
outside-IsAt j c (locks k) e o free = record {
  own = sym o;
  free = free;
  mine = λ x. absurd (cc);
  piece = tt;
}
outside-IsAt j c (holds k) e o free = absurd (cc)
outside-IsAt j c (writes a b d l) e o free = absurd (cc)
outside-IsAt j c (wrote a b d l) e o free = absurd (cc)
outside-IsAt j c shut e o free = absurd (cc)

module _ (i j : ℕ) (other : (i == j) ≡ false) (c : SafeConn) (q : Pc) (k : IsAt j c q) where
  -- While one goroutine is inside, another is not.
  apart : (p : Pc) → IsAt i c p → critical p ≡ true → critical q ≡ false
  apart p h inside = elim (Bool-cases (critical q)) [
    | inl both ↦ let same = IsAt-exclusive i j c p q h k inside both in absurd (ground arith)
    | inr out ↦ out
  ]

  -- So what one does leaves the others where they are.
  Move-other : (c' : SafeConn) (p p' : Pc) → Move i c p c' p' → IsAt i c p → IsAt j c' q
  Move-other c' p p' m h = step c' p p' m h (Move-IsAt i c c' p p' m h)
    where
      step : (d : SafeConn) (a b : Pc) → Move i c a d b → IsAt i c a → IsAt i d b → IsAt j d q
      step d a b (calls _) u v = k
      step d a b (enters e) u v =
          outside-IsAt j d q (k.own ∙ ap (λ m. is_holder m j) e) other v.free
      step d a b (arms now) u v =
          let out = apart a u refl in outside-IsAt j d q out (sym k.own ∙ out) v.free
      step d a b (puts xs ys e o) u v =
          let out = apart a u refl in outside-IsAt j d q out (sym k.own ∙ out) v.free
      step d a b returns u v = k
      step d a b closes u v =
          let out = apart a u refl in outside-IsAt j d q out (sym k.own ∙ out) v.free
      step d a b leaves u v = outside-IsAt j d q (apart a u refl) refl v.free
      step d a b leaves_shut u v = outside-IsAt j d q (apart a u refl) refl v.free

-- A write that has returned has put a front of its payload on the wire: all of it, or its call failed.
abbrev pub IsFront : Written → Type 0
IsFront w = w.payload ≡ w.put ++ w.left

-- The mutex is held by whoever is inside; with nobody inside the wire holds the writes that have
-- returned, one after the other, and else these and a front of the payload of the one inside, whose
-- deadline is the socket's.
pub record IsSerial (s : System) : Type 0 where
  pub at : (j : ℕ) → IsAt j s.conn (s.pc j)
  pub fronts : All IsFront s.conn.log

Move-fronts :
    (i : ℕ) (c c' : SafeConn) (p p' : Pc)
    → Move i c p c' p'
    → IsAt i c p
    → All IsFront c.log
    → All IsFront c'.log
Move-fronts i c c' p p' (calls k) h a = a
Move-fronts i c c' p p' (enters e) h a = a
Move-fronts i c c' p p' (arms now) h a = a
Move-fronts i c c' p p' (puts xs ys e o) h a = a
Move-fronts i c c' p p' returns h a = a
Move-fronts i c c' p p' closes h a = a
Move-fronts i c c' p p' leaves h a = All-append IsFront c.log _ a (h.piece.0, tt)
Move-fronts i c c' p p' leaves_shut h a = a

Step-at :
    (s : System) (i : ℕ) (p p' : Pc) (c : SafeConn)
    → s.pc i ≡ p
    → Move i s.conn p c p'
    → IsSerial s
    → (j : ℕ) → IsAt j c (update s.pc i p' j)
Step-at s i p p' c e m h j =
    let mine : IsAt i s.conn p = subst (IsAt i s.conn) e (h.at i) in
    elim (Bool-cases (i == j)) [
      | inl same ↦
          let here : i ≡ j = (==_iff i j).0 same in
          rw same (subst (λ k. IsAt k c p') here (Move-IsAt i s.conn c p p' m mine))
      | inr other ↦ rw other (Move-other i j other s.conn (s.pc j) (h.at j) c p p' m mine)
    ]

Step-IsSerial : {s t : System} → Step s t → IsSerial s → IsSerial t
Step-IsSerial {s} (pick i {p} {p'} {c} e m) h = record {
  at = Step-at s i p p' c e m h;
  fronts = Move-fronts i s.conn c p p' m (subst (IsAt i s.conn) e (h.at i)) h.fronts;
}

-- However any number of goroutines write to a connection and close it, in any order and with any
-- failures of the socket, the writes do not mix: at most one goroutine is inside, the bytes on the
-- wire are the writes that have returned, in the order in which they have, and then those of the
-- write that is inside; each write has put a front of its payload there, and while it runs the
-- socket's deadline is its own.
pub Reach-IsSerial : {s : System} → Reach s → IsSerial s
Reach-IsSerial start = record {
  at = λ j. record { own = refl; free = λ e. refl; mine = λ e. absurd (cc); piece = tt };
  fronts = tt;
}
Reach-IsSerial (later r st) = Step-IsSerial st (Reach-IsSerial r)
