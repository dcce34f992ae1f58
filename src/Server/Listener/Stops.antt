-- ===== src/Server/Listener/Stops.antt =====
-- That `Shutdown` and `ListenAndServe` return, and what may still run then.
use mathlib.Core.Path.{subst}
use zx909_gw.Prelude.{
  ap, ℕ, suc, ◌+◌, ◌≤◌, ◌<◌, ◌≡◌, ◌≢◌, refl, ◌∙◌, sym, inl, inr, ◌⊎◌, true, false, List, [], ◌∷◌,
  none, some, arith, length, Option-cases,
}
use zx909_gw.Server.Listener.{
  closed_socket, Loop, starting, accepting, holding, stopped, Phase, not_called, marked, waiting,
  returned, Listener, Event, listens, accepts, accept_fails, starts, ends, marks, closes, returns,
  without, listen, accept, accept_error, start_handler, end_handler, mark_closing, close_listener,
  finish_wait, occur, run,
}

-- The steps that a loop and a `Shutdown` have left.
abbrev pub loop_left : Loop → ℕ
loop_left starting = 2
loop_left accepting = 1
loop_left (holding c) = 3
loop_left (stopped r) = 0

abbrev pub phase_left : Phase → ℕ
phase_left returned = 0
phase_left _ = 1

abbrev pub left : Listener → ℕ
left l = length l.handlers + loop_left l.loop + phase_left l.phase

-- The server listens no more, and `Shutdown` waits or has returned.
abbrev pub closed : Loop → Phase → List ℕ → Listener
closed loop phase handlers = record {
  socket = closed_socket;
  loop = loop;
  closing = true;
  phase = phase;
  handlers = handlers;
}

abbrev pub IsPast : Phase → Type 0
IsPast phase = (phase ≡ waiting) ⊎ (phase ≡ returned)

-- `net.Listen` has succeeded.
abbrev pub IsServing : Loop → Type 0
IsServing loop = (loop ≢ starting) × (loop ≢ stopped false)

-- A closed server with fewer steps left than `n`.
pub record Below (n : ℕ) (k : Listener) : Type 0 where
  pub loop : Loop
  pub phase : Phase
  pub handlers : List ℕ
  pub same : k ≡ closed loop phase handlers
  pub past : IsPast phase
  pub started : IsServing loop
  pub less : left (closed loop phase handlers) < n

-- Both have returned, `ListenAndServe` with nil, and nothing runs.
pub record IsQuiet (l : Listener) : Type 0 where
  pub phase : l.phase ≡ returned
  pub loop : l.loop ≡ stopped true
  pub handlers : l.handlers ≡ []

-- Either everything has stopped, or an event can occur.
abbrev pub Progress : Listener → Type 0
Progress t = IsQuiet t ⊎ ((e : Event) × (k : Listener) × (occur e t ≡ some k))

pub transfer : {A : Type 0} (Q : A → Type 0) {x k : A} → some x ≡ some k → Q x → Q k
transfer Q {x} h q = subst Q (ap (λ o. elim o [ none ↦ x | some z ↦ z ]) h) q

below :
    {n : ℕ} {k : Listener} (loop : Loop) (phase : Phase) (handlers : List ℕ)
    → some (closed loop phase handlers) ≡ some k
    → IsPast phase
    → IsServing loop
    → left (closed loop phase handlers) < n
    → Below n k
below {n} loop phase handlers h past started less = transfer (Below n) h (record {
  loop = loop;
  phase = phase;
  handlers = handlers;
  same = refl;
  past = past;
  started = started;
  less = less;
})

pub length-without : (c : ℕ) (cs ds : List ℕ) → without c cs ≡ some ds → length cs ≡ suc (length ds)
unfolding without
length-without c [] ds h = ground arith
length-without c (d ∷ cs) ds h = elim (Option-cases (without c cs)) [
  | inl gone ↦ ground arith
  | inr (es, e) ↦ ground (arith, length-without c cs es e)
]

occur-closed :
    (e : Event) (loop : Loop) (phase : Phase) (hs : List ℕ) (k : Listener)
    → IsPast phase
    → IsServing loop
    → occur e (closed loop phase hs) ≡ some k
    → Below (left (closed loop phase hs)) k
unfolding occur listen accept accept_error start_handler end_handler mark_closing close_listener
    finish_wait
occur-closed (listens b) starting phase hs k past started h = absurd (started.0 refl)
occur-closed (listens b) accepting phase hs k past started h = cc
occur-closed (listens b) (holding c) phase hs k past started h = cc
occur-closed (listens b) (stopped r) phase hs k past started h = cc
occur-closed (accepts c) starting phase hs k past started h = cc
occur-closed (accepts c) accepting phase hs k past started h = cc
occur-closed (accepts c) (holding d) phase hs k past started h = cc
occur-closed (accepts c) (stopped r) phase hs k past started h = cc
occur-closed accept_fails starting phase hs k past started h = cc
occur-closed accept_fails accepting phase hs k past started h =
    below (stopped true) phase hs h past (λ e. cc, λ e. cc) (omega arith)
occur-closed accept_fails (holding d) phase hs k past started h = cc
occur-closed accept_fails (stopped r) phase hs k past started h = cc
occur-closed starts starting phase hs k past started h = cc
occur-closed starts accepting phase hs k past started h = cc
occur-closed starts (holding d) phase hs k past started h =
    below accepting phase (d ∷ hs) h past (λ e. cc, λ e. cc) (omega arith)
occur-closed starts (stopped r) phase hs k past started h = cc
occur-closed (ends c) loop phase hs k past started h = elim (Option-cases (without c hs)) [
  | inl gone ↦ absurd (ground arith)
  | inr (ds, e) ↦
      let shorter : length hs ≡ suc (length ds) = length-without c hs ds e in
      below loop phase ds (sym (rw e) ∙ h) past started (rw shorter (omega arith))
]
occur-closed marks loop not_called hs k past started h = absurd (ground arith)
occur-closed marks loop marked hs k past started h = cc
occur-closed marks loop waiting hs k past started h = cc
occur-closed marks loop returned hs k past started h = cc
occur-closed closes loop not_called hs k past started h = cc
occur-closed closes loop marked hs k past started h = absurd (ground arith)
occur-closed closes loop waiting hs k past started h = cc
occur-closed closes loop returned hs k past started h = cc
occur-closed returns loop not_called hs k past started h = cc
occur-closed returns loop marked hs k past started h = cc
occur-closed returns loop waiting [] k past started h =
    below loop returned [] h (inr refl) started (omega arith)
occur-closed returns loop waiting (c ∷ hs) k past started h = cc
occur-closed returns loop returned hs k past started h = cc

closed-Progress :
    (loop : Loop) (phase : Phase) (hs : List ℕ)
    → IsPast phase
    → IsServing loop
    → Progress (closed loop phase hs)
unfolding occur accept_error start_handler end_handler finish_wait without
closed-Progress starting phase hs past started = absurd (started.0 refl)
closed-Progress accepting phase hs past started = inr (accept_fails, _, refl)
closed-Progress (holding c) phase hs past started = inr (starts, _, refl)
closed-Progress (stopped r) phase (c ∷ hs) past started =
    inr (ends c, closed (stopped r) phase hs, ground arith)
closed-Progress (stopped r) waiting [] past started = inr (returns, _, refl)
closed-Progress (stopped false) returned [] past started = absurd (started.1 refl)
closed-Progress (stopped true) returned [] past started =
    inl (record { phase = refl; loop = refl; handlers = refl })
closed-Progress (stopped r) not_called [] past started = absurd (ground arith)
closed-Progress (stopped r) marked [] past started = absurd (ground arith)

-- A run that is not empty begins with an event that can occur.
pub run-first :
    (e : Event) (es : List Event) (l t : Listener)
    → run (e ∷ es) l ≡ some t
    → (k : Listener) × (occur e l ≡ some k) × (run es k ≡ some t)
unfolding run
run-first e es l t h = elim (Option-cases (occur e l)) [
  | inl stuck ↦ absurd (ground arith)
  | inr (k, moved) ↦ (k, moved, sym (rw (moved, run)) ∙ h)
]

pub run-closed :
    (es : List Event) (loop : Loop) (phase : Phase) (hs : List ℕ) (t : Listener)
    → IsPast phase
    → IsServing loop
    → run es (closed loop phase hs) ≡ some t
    → (length es + left t ≤ left (closed loop phase hs)) × Progress t
unfolding run
run-closed [] loop phase hs t past started h =
    transfer (λ t. (0 + left t ≤ left (closed loop phase hs)) × Progress t) h
      (omega arith, closed-Progress loop phase hs past started)
run-closed (e ∷ es) loop phase hs t past started h =
    let (k, moved, later) = run-first e es (closed loop phase hs) t h in
    let b = occur-closed e loop phase hs k past started moved in
    let r =
      run-closed es b.loop b.phase b.handlers t b.past b.started
        (subst (λ k. run es k ≡ some t) b.same later) in
    let less = b.less in let rest = r.0 in (omega arith, r.1)
