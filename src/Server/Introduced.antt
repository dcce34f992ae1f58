-- ===== src/Server/Introduced.antt =====
-- internal/server/server.go: ThingsBoard hears of a device's connection before its telemetry. What holds of
-- the log and of the sessions, and that the smallest parts of the server keep it.
pub mod Sessions
use mathlib.Core.List.{reverse, reverse-append}
use mathlib.Core.Path.{subst}
use zx909_gw.Prelude.{
  ℕ, suc, ◌≡◌, refl, ap, ◌∙◌, sym, inl, inr, ◌⊎◌, Bool, true, false, List, [], ◌∷◌, ◌++◌, Option,
  none, some, arith, if◌then◌else◌, ◌==◌, Bool-cases,
}
use zx909_gw.Bytes.{Bytes}
use zx909_gw.Platform.{Platform}
use zx909_gw.Server.State.{
  Server, Session, Task, maybe_connect_tb, resolve_and_publish_lbs, Output, write, close,
  connect_device, disconnect_device, publish_telemetry, emit, deref, update, touch, mark_connected,
  remove_session,
}
use zx909_gw.Server.Handle.{start}
use zx909_gw.Server.Effects.{All, All-append, All-map}
use zx909_gw.Server.Keeps.{
  imei_at, imei_at-update, IsWellFormed, Keeps, Keeps-IsWellFormed, emit-Keeps, touch-Keeps,
  mark_connected-Keeps, start-Keeps,
}

module _ (P : Platform) where
  open P use {Time}

  -- ThingsBoard was asked to connect the device; the newest request stands first.
  abbrev pub Asked : Bytes → List (Output P) → Type 0
  Asked k [] = ⊥
  Asked k (connect_device i ∷ os) = (i ≡ k) ⊎ Asked k os
  Asked k (write _ _ ∷ os) = Asked k os
  Asked k (close _ ∷ os) = Asked k os
  Asked k (disconnect_device _ ∷ os) = Asked k os
  Asked k (publish_telemetry _ _ _ ∷ os) = Asked k os

  -- A request that may follow the others: telemetry is of a device whose connection was asked for.
  abbrev pub MayFollow : List (Output P) → Output P → Type 0
  MayFollow os (publish_telemetry k _ _) = Asked k os
  MayFollow os _ = Unit {0}

  abbrev pub InOrder : List (Output P) → Type 0
  InOrder [] = Unit {0}
  InOrder (o ∷ os) = MayFollow os o × InOrder os

  -- The IMEI of the session at `p`, if the session is marked as connected.
  abbrev pub marked_at : ℕ → List (ℕ × Session P) → Option Bytes
  marked_at p h = elim (deref P p h) [
    | none ↦ none
    | some x ↦ if x.tb_connected then some x.imei else none
  ]

  -- A goroutine of a login has the session of its IMEI.
  abbrev pub IsOwn : List (ℕ × Session P) → Task P → Type 0
  IsOwn h (maybe_connect_tb none k) = Unit {0}
  IsOwn h (maybe_connect_tb (some p) k) = imei_at P p h ≡ some k
  IsOwn h (resolve_and_publish_lbs _ _) = Unit {0}

  pub record IsIntroduced (s : Server P) : Type 0 where
    pub well : IsWellFormed P s
    pub in_order : InOrder (reverse s.log)
    pub marked : (p : ℕ) (k : Bytes) → marked_at p s.heap ≡ some k → Asked k (reverse s.log)
    pub own : All (IsOwn s.heap) s.tasks

  pub Asked-later :
      (k : Bytes) (o : Output P) (os : List (Output P)) → Asked k os → Asked k (o ∷ os)
  Asked-later k (connect_device i) os h = inr h
  Asked-later k (write _ _) os h = h
  Asked-later k (close _) os h = h
  Asked-later k (disconnect_device _) os h = h
  Asked-later k (publish_telemetry _ _ _) os h = h

  reverse-emit : (o : Output P) (os : List (Output P)) → o ∷ reverse os ≡ reverse (os ++ (o ∷ []))
  reverse-emit o os = sym (reverse-append os (o ∷ []))

  pub emit-Asked :
      (k : Bytes) (o : Output P) (s : Server P)
      → Asked k (reverse s.log)
      → Asked k (reverse (emit P o s).log)
  unfolding emit
  emit-Asked k o s h = subst (Asked k) (reverse-emit o s.log) (Asked-later k o (reverse s.log) h)

  pub emit-asks : (k : Bytes) (s : Server P) → Asked k (reverse (emit P (connect_device k) s).log)
  unfolding emit
  emit-asks k s = subst (Asked k) (reverse-emit (connect_device k) s.log) (inl refl)

  pub emit-IsIntroduced :
      (o : Output P) (s : Server P)
      → MayFollow (reverse s.log) o
      → IsIntroduced s
      → IsIntroduced (emit P o s)
  unfolding emit
  emit-IsIntroduced o s f v = record {
    well = Keeps-IsWellFormed P (emit-Keeps P o s) v.well;
    in_order = subst InOrder (reverse-emit o s.log) (f, v.in_order);
    marked = λ p k e. emit-Asked k o s (v.marked p k e);
    own = v.own;
  }

  -- Tasks stay right where sessions keep their IMEIs.
  IsOwn-kept :
      (g h : List (ℕ × Session P)) (ts : List (Task P))
      → ((p : ℕ) → imei_at P p h ≡ imei_at P p g)
      → All (IsOwn g) ts
      → All (IsOwn h) ts
  IsOwn-kept g h ts same = All-map (IsOwn g) (IsOwn h) ts kept
    where
      kept : (t : Task P) → IsOwn g t → IsOwn h t
      kept (maybe_connect_tb none k) o = tt
      kept (maybe_connect_tb (some p) k) o = same p ∙ o
      kept (resolve_and_publish_lbs _ _) o = tt

  marked_at-touch :
      (now : Time) (p q : ℕ) (h : List (ℕ × Session P))
      → marked_at q (update P p (λ x. record x { last_seen = now }) h) ≡ marked_at q h
  unfolding update deref
  marked_at-touch now p q [] = refl
  marked_at-touch now p q ((r, x) ∷ h) = ground (arith, marked_at-touch now p q h)

  pub touch-IsIntroduced :
      (now : Time) (p : Option ℕ) (s : Server P) → IsIntroduced s → IsIntroduced (touch P now p s)
  unfolding touch
  touch-IsIntroduced now none s v = v
  touch-IsIntroduced now (some p) s v = record {
    well = Keeps-IsWellFormed P (touch-Keeps P now (some p) s) v.well;
    in_order = v.in_order;
    marked = λ q k e. v.marked q k (sym (marked_at-touch now p q s.heap) ∙ e);
    own = IsOwn-kept s.heap _ s.tasks ((touch-Keeps P now (some p) s).same_imeis) v.own;
  }

  marked_at-mark :
      (p q : ℕ) (h : List (ℕ × Session P))
      → marked_at q (update P p (λ x. record x { tb_connected = true }) h)
        ≡ (if p == q then imei_at P q h else marked_at q h)
  unfolding update deref
  marked_at-mark p q [] = ground arith
  marked_at-mark p q ((r, x) ∷ h) = ground (arith, marked_at-mark p q h)

  pub mark_connected-IsIntroduced :
      (p : ℕ) (k : Bytes) (s : Server P)
      → imei_at P p s.heap ≡ some k
      → Asked k (reverse s.log)
      → IsIntroduced s
      → IsIntroduced (mark_connected P p s)
  unfolding mark_connected
  mark_connected-IsIntroduced p k s e a v = record {
    well = Keeps-IsWellFormed P (mark_connected-Keeps P p s) v.well;
    in_order = v.in_order;
    marked = λ q i found. elim (Bool-cases (p == q)) [
      | inl same ↦
          let known : k ≡ i = ground (arith, marked_at-mark p q s.heap) in
          subst (λ j. Asked j (reverse s.log)) known a
      | inr other ↦ v.marked q i (ground (arith, marked_at-mark p q s.heap))
    ];
    own = IsOwn-kept s.heap _ s.tasks ((mark_connected-Keeps P p s).same_imeis) v.own;
  }

  pub start-IsIntroduced :
      (t : Task P) (s : Server P) → IsOwn s.heap t → IsIntroduced s → IsIntroduced (start P t s)
  unfolding start
  start-IsIntroduced t s o v = record {
    well = Keeps-IsWellFormed P (start-Keeps P t s) v.well;
    in_order = v.in_order;
    marked = v.marked;
    own = All-append (IsOwn s.heap) s.tasks (t ∷ []) v.own (o, tt);
  }

  pub if-IsIntroduced :
      (b : Bool) (s t : Server P)
      → (b ≡ true → IsIntroduced s)
      → (b ≡ false → IsIntroduced t)
      → IsIntroduced (if b then s else t)
  if-IsIntroduced true s t u v = u refl
  if-IsIntroduced false s t u v = v refl
